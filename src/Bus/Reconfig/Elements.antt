-- ===== src/Bus/Reconfig/Elements.antt =====
-- What the configuration of a well-formed INIT event does (slave/main/esp_hosted_coprocessor.c).
use esp_hosted_open.Prelude.{
  ℕ, zero, suc, ◌+◌, ◌%◌, ◌≤◌, ◌<◌, ◌≡◌, refl, subst, false, some, List, [], ◌∷◌, ◌++◌, arith, ltb,
  ◌==◌, le→ltb_false, length, length-append,
}
use esp_hosted_open.Memory.{Memory, Holds, Holds-append}
use esp_hosted_open.Status.{esp_ok}
use esp_hosted_open.Bus.Reconfig.{
  SlaveConfig, set_tag, left_after, tag_loop, returned, host_to_slave_reconfig,
}

-- an element: its tag, and its value, which has a first byte
abbrev pub Element : Type 0
Element = ℕ × ℕ × List ℕ

abbrev pub encode : List Element → List ℕ
encode [] = []
encode ((tag, value, more) ∷ es) = (tag ∷ suc (length more) ∷ value ∷ more) ++ encode es

-- the settings of the elements, one after the other
abbrev pub set_all : List Element → SlaveConfig → SlaveConfig
set_all [] cfg = cfg
set_all ((tag, value, more) ∷ es) cfg = set_all es (set_tag tag value cfg)

tag_loop-encode :
    (fuel : ℕ) (m : Memory) (es : List Element) (pos : ℕ) (cfg : SlaveConfig)
    → length es < fuel
    → length (encode es) ≤ 64
    → Holds m pos (encode es)
    → tag_loop fuel m pos (length (encode es)) cfg ≡ some (set_all es cfg)
unfolding tag_loop
tag_loop-encode zero m es pos cfg enough fits held = absurd (ground arith)
tag_loop-encode (suc fuel) m [] pos cfg enough fits held = refl
tag_loop-encode (suc fuel) m ((tag, value, more) ∷ es) pos cfg enough fits (e0, (e1, (e2, held))) =
    let (hm, hr) = Holds-append m (pos + 1 + 1 + 1) more (encode es) held in
    let rest = length-append more (encode es) in
    let left : left_after (suc (suc (suc (length (more ++ encode es))))) (m (pos + 1))
        ≡ length (encode es) =
      omega arith in
    let going : (suc (suc (suc (length (more ++ encode es)))) == 0) ≡ false = ground arith in
    let next : pos + m (pos + 1) + 2 ≡ pos + 1 + 1 + 1 + length more = omega arith in
    let value_at : m (pos + 2) ≡ value = subst (λ j. m j ≡ value) (omega arith) e2 in
    rw (going, next, left, e0, value_at)
      (tag_loop-encode fuel m es (pos + 1 + 1 + 1 + length more) (set_tag tag value cfg)
        (omega arith) (omega arith) hr)

-- An INIT event of at most 64 bytes of whole elements, each with a value of at least one byte, sets
-- the thresholds that it names, in its order, with more fuel than it has elements.
pub host_to_slave_reconfig-encode :
    (fuel : ℕ) (m : Memory) (es : List Element) (cfg : SlaveConfig)
    → length es < fuel
    → length (encode es) ≤ 64
    → Holds m 0 (encode es)
    → host_to_slave_reconfig fuel (some m) (length (encode es)) cfg
      ≡ returned esp_ok (set_all es cfg)
unfolding host_to_slave_reconfig
host_to_slave_reconfig-encode fuel m es cfg enough fits held =
    let short : ltb 64 (length (encode es)) ≡ false = le→ltb_false _ _ fits in
    let byte : length (encode es) % 256 ≡ length (encode es) = omega arith in
    rw (short, byte, tag_loop-encode fuel m es 0 cfg enough fits held) refl
