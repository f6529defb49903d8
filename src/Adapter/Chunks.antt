-- ===== src/Adapter/Chunks.antt =====
-- protocolTerminalAdapter.ts: the chunks of `sendPaste` are whole characters, and all of the text.
use terminus_web.Prelude.{
  ℕ, zero, suc, ◌+◌, ◌-◌, ◌≤◌, ◌<◌, ◌≡◌, refl, sym, ◌∙◌, ap, inl, inr, true, false, ◌&&◌, ◌||◌,
  List, [], ◌∷◌, ◌++◌, some, Text, ltb, leb, length, take, drop, All, Bool-cases, arith,
}
use terminus_web.Codec.Base64.{Bytes}
use terminus_web.Codec.Utf8.{utf8}
use terminus_web.Codec.Utf8.Whole.{IsWhole, utf8-IsWhole}
use terminus_web.Codec.Frames.{max_terminal_input_bytes}
use terminus_web.Adapter.Paste.{
  max_paste_bytes, is_connected, sent, inputs, send_paste, continues_at, step_back, reach, subarray,
  chunks,
}
use terminus_web.Adapter.State.{Adapter}
use terminus_web.Adapter.Cuts.{
  suc_add, first_is_first, first_within, cut, step_back_lem, IsInput, concat,
}

past_end : (bytes : Bytes) → continues_at bytes (length bytes) ≡ false
unfolding continues_at
past_end [] = refl
past_end (b ∷ bs) = past_end bs

next_end :
    (bytes : Bytes) (offset : ℕ)
    → IsWhole bytes
    → ltb offset (length bytes) ≡ true
    → let end = step_back bytes (reach bytes offset) in
      (offset < end)
      × (end ≤ offset + max_terminal_input_bytes)
      × (end ≤ length bytes)
      × (continues_at bytes end ≡ false)
next_end bytes offset w e =
    elim (Bool-cases (ltb (length bytes) (offset + max_terminal_input_bytes))) [
      | inl s ↦
          let (a, b, c) =
            step_back_lem bytes (length bytes) (length bytes) (past_end bytes) (omega arith) in
          rw s (ground arith, ground arith, b, c)
      | inr s ↦
          let (j, l, z) = first_within w (offset + 16381) in
          let (a, b, c) =
            step_back_lem bytes (offset + 16381 + j) (offset + max_terminal_input_bytes) z
              (omega arith) in
          rw s (omega arith, omega arith, ground arith, c)
    ]

drop_none : (n : ℕ) → drop {A = ℕ} n [] ≡ []
drop_none zero = refl
drop_none (suc n) = refl

drop_all : (n : ℕ) (xs : Bytes) → length xs ≤ n → drop n xs ≡ []
drop_all n [] l = drop_none n
drop_all zero (x ∷ xs) l = ground arith
drop_all (suc n) (x ∷ xs) l = drop_all n xs (omega arith)

take-drop : (n : ℕ) (xs : Bytes) → take n xs ++ drop n xs ≡ xs
take-drop zero xs = refl
take-drop (suc n) [] = refl
take-drop (suc n) (x ∷ xs) = ap (λ ys. x ∷ ys) (take-drop n xs)

drop-drop : (m n : ℕ) (xs : Bytes) → drop m (drop n xs) ≡ drop (n + m) xs
drop-drop m zero xs = ap (λ i. drop i xs) (omega arith)
drop-drop m (suc n) [] = simp (suc_add n m) (drop_none m)
drop-drop m (suc n) (x ∷ xs) = simp (suc_add n m) (drop-drop m n xs)

continues_at-drop : (n i : ℕ) (xs : Bytes) → continues_at (drop n xs) i ≡ continues_at xs (n + i)
unfolding continues_at
continues_at-drop zero i xs = ap (continues_at xs) (omega arith)
continues_at-drop (suc n) i [] = refl
continues_at-drop (suc n) i (x ∷ xs) = simp (suc_add n i) (continues_at-drop n i xs)

length-drop : (n : ℕ) (xs : Bytes) → length (drop n xs) ≡ length xs - n
length-drop zero xs = omega arith
length-drop (suc n) [] = omega arith
length-drop (suc n) (x ∷ xs) = omega (arith, length-drop n xs)

length-take : (n : ℕ) (xs : Bytes) → n ≤ length xs → length (take n xs) ≡ n
length-take zero xs l = refl
length-take (suc n) [] l = ground arith
length-take (suc n) (x ∷ xs) l = omega (arith, length-take n xs (omega arith))

subarray-drop :
    (bytes : Bytes) (offset end : ℕ)
    → offset ≤ end
    → subarray bytes offset end ++ drop end bytes ≡ drop offset bytes
subarray-drop bytes offset end l =
    ap (λ rest. subarray bytes offset end ++ rest)
      (ap (λ i. drop i bytes) (omega arith) ∙ sym (drop-drop (end - offset) offset bytes))
    ∙ take-drop (end - offset) (drop offset bytes)

subarray-IsInput :
    (bytes : Bytes) (offset end : ℕ)
    → IsWhole bytes
    → continues_at bytes offset ≡ false
    → offset < end
    → end ≤ offset + max_terminal_input_bytes
    → end ≤ length bytes
    → continues_at bytes end ≡ false
    → IsInput (subarray bytes offset end)
subarray-IsInput bytes offset end w f l m n g =
    let size =
      length-take (end - offset) (drop offset bytes) (omega (arith, length-drop offset bytes)) in
    (
      omega (arith, size),
      omega (arith, size),
      (cut (cut w offset f).1 (end - offset) (
          continues_at-drop offset (end - offset) bytes
          ∙ (ap (continues_at bytes) (omega arith) ∙ g))).0,
    )

chunks-IsInput :
    (fuel : ℕ) (bytes : Bytes) (offset : ℕ)
    → IsWhole bytes
    → continues_at bytes offset ≡ false
    → offset ≤ length bytes
    → length bytes < fuel + offset
    → (cs : List Bytes) × (chunks fuel bytes offset ≡ some cs)
      × (concat cs ≡ drop offset bytes)
      × All IsInput cs
unfolding chunks
chunks-IsInput zero bytes offset w f l m = ground arith
chunks-IsInput (suc fuel) bytes offset w f l m = elim (Bool-cases (ltb offset (length bytes))) [
  | inl e ↦
      let end = step_back bytes (reach bytes offset) in
      let (further, at_most, inside, g) = next_end bytes offset w e in
      let (cs, q, all_of_it, good) = chunks-IsInput fuel bytes end w g inside (omega arith) in
      (
        subarray bytes offset end ∷ cs,
        rw (e, q) refl,
        ap (λ rest. subarray bytes offset end ++ rest) all_of_it
            ∙ subarray-drop bytes offset end (omega arith),
        (subarray-IsInput bytes offset end w f further at_most inside g, good),
      )
  | inr e ↦ ([], rw e refl, sym (drop_all offset bytes (ground arith)), tt)
]

within_limit :
    (a b : ℕ)
    → leb a max_paste_bytes && leb b max_paste_bytes ≡ true
    → ltb max_paste_bytes a || ltb max_paste_bytes b ≡ false
within_limit a b h = ground arith

-- A paste within the limit that nothing interrupts ends, and sends the whole text: the chunks in their
-- frames are together the text's UTF-8 bytes, none is empty or longer than the limit of a frame, and
-- each is made of whole characters, so that no character is torn apart between two frames.
pub send_paste-IsInput :
    (t : Text) (id : Text) (a : Adapter)
    → leb (length t) max_paste_bytes && leb (length (utf8 t)) max_paste_bytes ≡ true
    → a.paste_operation ≡ false
    → is_connected a.state ≡ true
    → a.session_id ≡ some id
    → (cs : List Bytes) × (send_paste true t a ≡ sent (inputs id cs))
      × (concat cs ≡ utf8 t)
      × All IsInput cs
unfolding send_paste
send_paste-IsInput t id a fits free up known =
    let whole = utf8-IsWhole t in
    let (cs, q, all_of_it, good) =
      chunks-IsInput (suc (length (utf8 t))) (utf8 t) 0 whole (first_is_first whole) (omega arith)
        (omega arith) in
    let short : ltb max_paste_bytes (length t) || ltb max_paste_bytes (length (utf8 t)) ≡ false =
      within_limit (length t) (length (utf8 t)) fits in
    (cs, rw (short, free, up, known, q) refl, all_of_it, good)
