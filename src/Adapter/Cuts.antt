-- ===== src/Adapter/Cuts.antt =====
-- protocolTerminalAdapter.ts: where `sendPaste` cuts bytes: between whole characters.
use terminus_web.Prelude.{
  ℕ, zero, suc, ◌+◌, ◌-◌, ◌≤◌, ◌<◌, ◌≡◌, refl, sym, ◌∙◌, ap, subst, ◌==◌, ==_iff, inl, inr, true,
  false, List, [], ◌∷◌, ◌++◌, ltb, all, length, take, drop, Bool-cases, arith,
}
use terminus_web.Codec.Base64.{Bytes}
use terminus_web.Codec.Utf8.Whole.{is_continuation, IsWhole, empty, character}
use terminus_web.Codec.Frames.{max_terminal_input_bytes}
use terminus_web.Adapter.Paste.{continues_at, step_back}

pub suc_add : (a b : ℕ) → suc a + b ≡ suc (a + b)
suc_add a b = omega arith

-- Inside a character every byte but the first is a continuation.
pub continues_at-inside :
    (cs rest : Bytes) (i : ℕ)
    → all is_continuation cs ≡ true
    → i < length cs
    → continues_at (cs ++ rest) i ≡ true
unfolding continues_at
continues_at-inside [] rest i h l = ground arith
continues_at-inside (c ∷ cs) rest zero h l = ground arith
continues_at-inside (c ∷ cs) rest (suc i) h l =
    continues_at-inside cs rest i (ground arith) (omega arith)

pub continues_at-behind :
    (cs rest : Bytes) (i : ℕ) → continues_at (cs ++ rest) (length cs + i) ≡ continues_at rest i
unfolding continues_at
continues_at-behind [] rest i = ap (continues_at rest) (omega arith)
continues_at-behind (c ∷ cs) rest i = simp (suc_add (length cs) i) (continues_at-behind cs rest i)

pub take-append : (cs rest : Bytes) (i : ℕ) → take (length cs + i) (cs ++ rest) ≡ cs ++ take i rest
take-append [] rest i = ap (λ n. take n rest) (omega arith)
take-append (c ∷ cs) rest i =
    simp (suc_add (length cs) i) (ap (λ ds. c ∷ ds) (take-append cs rest i))

pub drop-append : (cs rest : Bytes) (i : ℕ) → drop (length cs + i) (cs ++ rest) ≡ drop i rest
drop-append [] rest i = ap (λ n. drop n rest) (omega arith)
drop-append (c ∷ cs) rest i = simp (suc_add (length cs) i) (drop-append cs rest i)

pub first_is_first : {bytes : Bytes} → IsWhole bytes → continues_at bytes 0 ≡ false
unfolding continues_at
first_is_first empty = refl
first_is_first (character b cs f h n w) = f

pub inside_end : (k n : ℕ) → ltb k n ≡ true → suc (n + 0) ≡ suc k + (n - k)
inside_end k n e = ground arith

pub behind_start : (k n : ℕ) → ltb k n ≡ false → n + (k - n) ≡ k
behind_start k n e = ground arith

pub behind_end : (k n j : ℕ) → ltb k n ≡ false → suc (n + (k - n + j)) ≡ suc k + j
behind_end k n j e = ground arith

-- Of four places that follow each other one is the first byte of a character, or past the end.
pub first_within :
    {bytes : Bytes}
    → IsWhole bytes
    → (k : ℕ) → (j : ℕ) × (j ≤ 3) × (continues_at bytes (k + j) ≡ false)
unfolding continues_at
first_within empty k = (0, omega arith, refl)
first_within (character b cs f h n w) zero = (0, omega arith, f)
first_within (character b cs {rest} f h n w) (suc k) = elim (Bool-cases (ltb k (length cs))) [
  | inl e ↦ (
    length cs - k,
    omega arith,
    subst (λ i. continues_at (b ∷ (cs ++ rest)) i ≡ false) (inside_end k (length cs) e)
        (continues_at-behind cs rest 0 ∙ first_is_first w),
  )
  | inr e ↦
      let (j, l, z) = first_within w (k - length cs) in
      (
        j,
        l,
        subst (λ i. continues_at (b ∷ (cs ++ rest)) i ≡ false) (behind_end k (length cs) j e)
            (continues_at-behind cs rest (k - length cs + j) ∙ z),
      )
]

pub cut :
    {bytes : Bytes}
    → IsWhole bytes
    → (k : ℕ) → continues_at bytes k ≡ false
    → IsWhole (take k bytes) × IsWhole (drop k bytes)
unfolding continues_at
cut empty zero g = (empty, empty)
cut empty (suc k) g = (empty, empty)
cut (character b cs {rest} f h n w) zero g = (empty, character b cs f h n w)
cut (character b cs {rest} f h n w) (suc k) g = elim (Bool-cases (ltb k (length cs))) [
  | inl e ↦ cc (g, continues_at-inside cs rest k h (ground arith))
  | inr e ↦
      let i = k - length cs in
      let q = behind_start k (length cs) e in
      let (before, behind) =
        cut w i (sym (continues_at-behind cs rest i) ∙ (ap (continues_at (cs ++ rest)) q ∙ g)) in
      (
        subst (λ bs. IsWhole (b ∷ bs))
            (sym (take-append cs rest i) ∙ ap (λ m. take m (cs ++ rest)) q)
            (character b cs f h n before),
        subst IsWhole (sym (drop-append cs rest i) ∙ ap (λ m. drop m (cs ++ rest)) q) behind,
      )
]

pub not_last :
    (bytes : Bytes) (k n : ℕ)
    → continues_at bytes (suc n) ≡ true
    → continues_at bytes k ≡ false
    → k ≤ suc n
    → k ≤ n
not_last bytes k n e f l = elim (Bool-cases (k == suc n)) [
  | inl q ↦ cc (f, e, (==_iff k (suc n)).0 q)
  | inr q ↦ ground arith
]

pub step_back_lem :
    (bytes : Bytes) (k n : ℕ)
    → continues_at bytes k ≡ false
    → k ≤ n
    → (k ≤ step_back bytes n)
      × (step_back bytes n ≤ n)
      × (continues_at bytes (step_back bytes n) ≡ false)
unfolding step_back
step_back_lem bytes k zero f l =
    (omega arith, omega arith, subst (λ i. continues_at bytes i ≡ false) (omega arith) f)
step_back_lem bytes k (suc n) f l = elim (Bool-cases (continues_at bytes (suc n))) [
  | inl e ↦
      let (a, b, c) = step_back_lem bytes k n f (not_last bytes k n e f l) in
      rw e (a, omega arith, c)
  | inr e ↦ rw e (l, omega arith, e)
]

-- A frame's bytes: some, at most the limit, and whole characters.
abbrev pub IsInput : Bytes → Type 0
IsInput chunk = (0 < length chunk) × (length chunk ≤ max_terminal_input_bytes) × IsWhole chunk

abbrev pub concat : List Bytes → Bytes
concat [] = []
concat (c ∷ cs) = c ++ concat cs
