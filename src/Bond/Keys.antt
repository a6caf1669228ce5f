-- ===== src/Bond/Keys.antt =====
-- `stakeKey` tells stakes apart as long as no pool id holds a colon.
use veri_node_backend.Prelude.{ℕ, String, ◌≡◌, refl, sym, ap, ◌∙◌, false, arith, ◌==◌}
use Prim.Native.Char.{Char, code}
use Prim.Native.String.{◌++◌}
use text.Mathlib.TextLemmas.{nil-append, cons-append}
use veri_node_backend.Bond.Memory.{stake_key}

abbrev pub ColonFree : String → Type 0
ColonFree String.[] = Unit
ColonFree (String.◌∷◌ c s) = ((code c == b':') ≡ false) × ColonFree s

head_code : String → ℕ
head_code String.[] = 0
head_code (String.◌∷◌ c s) = code c

tail_of : String → String
tail_of String.[] = ""
tail_of (String.◌∷◌ c s) = s

colon_append : (u : String) → head_code (":" ++ u) ≡ b':'
unfolding head_code
colon_append u = ap head_code (cons-append ":" "" u)

no_colon_head :
    (c : Char) (p s u : String)
    → ((code c == b':') ≡ false)
    → (String.◌∷◌ c p) ++ s ≡ "" ++ (":" ++ u)
    → ⊥
unfolding head_code
no_colon_head c p s u h e =
    let h' : code c ≡ b':' =
      sym (ap head_code (cons-append c p s))
      ∙ ap head_code (e ∙ nil-append (":" ++ u))
      ∙ colon_append u in
    ground arith

split_colon :
    (p q u v : String) → ColonFree p → ColonFree q → p ++ (":" ++ u) ≡ q ++ (":" ++ v) → p ≡ q
unfolding tail_of
split_colon String.[] String.[] u v hp hq e = refl
split_colon String.[] (String.◌∷◌ d q) u v hp hq e = absurd (no_colon_head d q _ u hq.0 (sym e))
split_colon (String.◌∷◌ c p) String.[] u v hp hq e = absurd (no_colon_head c p _ v hp.0 e)
split_colon (String.◌∷◌ c p) (String.◌∷◌ d q) u v hp hq e =
    let e' : String.◌∷◌ c (p ++ (":" ++ u)) ≡ String.◌∷◌ d (q ++ (":" ++ v)) =
      sym (cons-append c p _) ∙ e ∙ cons-append d q _ in
    cc (e', split_colon p q u v hp.1 hq.1 (ap tail_of e'))

-- Two stakes with one key are in one pool, if neither pool id holds a colon.
pub stake_key-pool :
    (p q u v : String) → ColonFree p → ColonFree q → stake_key p u ≡ stake_key q v → p ≡ q
unfolding stake_key
stake_key-pool p q u v hp hq e = split_colon p q u v hp hq e
