-- ===== src/Message/Split.antt =====
-- `Split` of NetworkMessage.h yields exactly the pieces that a delimiter ends, and does not end if
-- one of them is empty.
use hamang_server.Prelude.{
  Bool-cases, List, Option-cases, Result, [], ap, append-nil, append_assoc, arith, drop, drop-drop,
  err, false, if◌then◌else◌, inl, inr, length, length-take, none, ok, out_of_fuel, refl, some, suc,
  take, true, zero, ℕ, ◌++◌, ◌+◌, ◌-◌, ◌<◌, ◌∙◌, ◌∷◌, ◌≡◌,
}
use hamang_server.Text.{Bytes, find, index_of, is_empty, substr}
use hamang_server.Message.{NetworkMessage, split, split_loop}
use hamang_server.Message.Segments.{
  has_empty, index_of-lt-length, length-segments_from-le, segments, segments_from,
  segments_from-none, segments_from-some, starts,
}

-- The positions of one round, in terms of the text that is left.
module _ (str : Bytes) (d p i : ℕ) (found : index_of d (drop p str) ≡ some i) where
  find-some : find str d p ≡ some (p + i)
  unfolding find
  find-some = rw found

  token_lem : substr str p (p + i - p) ≡ take i (drop p str)
  unfolding substr
  token_lem = rw (let e : p + i - p ≡ i = omega arith in e)

  rest_lem : drop (p + i + 1) str ≡ drop (suc i) (drop p str)
  rest_lem = rw (let e : p + i + 1 ≡ p + suc i = omega arith in e) (drop-drop p (suc i) str)

-- An empty piece keeps the loop where it is.
split_loop_stays :
    (f : ℕ) (str : Bytes) (d p cur : ℕ) (ts : List Bytes) (sps : List ℕ)
    → is_empty (substr str p (cur - p)) ≡ true
    → split_loop f str d p (some cur) ts sps ≡ err out_of_fuel
unfolding split_loop
split_loop_stays zero str d p cur ts sps h = refl
split_loop_stays (suc f) str d p cur ts sps h = rw h (split_loop_stays f str d p cur ts sps h)

length-take_of_lt {ℓ} : {A : Type ℓ} (n : ℕ) (xs : List A) → n < length xs → length (take n xs) ≡ n
length-take_of_lt n xs h = omega (arith, length-take n xs)

-- The result of the loop from position `p`, by the pieces that are left there.
abbrev outcome : List Bytes → List ℕ → ℕ → List Bytes → Result (List Bytes × List ℕ)
outcome ts sps p segs =
    if has_empty segs then err out_of_fuel else ok (ts ++ segs, sps ++ starts p segs)

outcome-cons :
    (t : Bytes) (ts : List Bytes) (sps : List ℕ) (p i : ℕ) (segs : List Bytes)
    → is_empty t ≡ false
    → length t ≡ i
    → outcome (ts ++ t ∷ []) (sps ++ p ∷ []) (p + i + 1) segs ≡ outcome ts sps p (t ∷ segs)
outcome-cons t ts sps p i segs full len =
    rw (
      full,
      len,
      append_assoc ts (t ∷ []) segs,
      append_assoc sps (p ∷ []) (starts (p + i + 1) segs),
    )

find-none : (str : Bytes) (d p : ℕ) → index_of d (drop p str) ≡ none → find str d p ≡ none
unfolding find
find-none str d p e = rw e

-- A full piece is collected, and the loop goes on behind it.
split_loop_step :
    (f : ℕ) (str : Bytes) (d p i : ℕ) (ts : List Bytes) (sps : List ℕ)
    → index_of d (drop p str) ≡ some i
    → is_empty (take i (drop p str)) ≡ false
    → split_loop (suc f) str d p (find str d p) ts sps
      ≡ split_loop f str d
          (p + i + 1)
          (find str d (p + i + 1))
          (ts ++ take i (drop p str) ∷ [])
          (sps ++ p ∷ [])
unfolding split_loop
split_loop_step f str d p i ts sps e full =
    rw (find-some str d p i e, split_loop, token_lem str d p i e, full)

split_loop_full :
    (f : ℕ) (str : Bytes) (d p i : ℕ) (ts : List Bytes) (sps : List ℕ)
    → index_of d (drop p str) ≡ some i
    → is_empty (take i (drop p str)) ≡ true
    → split_loop f str d p (find str d p) ts sps ≡ err out_of_fuel
split_loop_full f str d p i ts sps e empty =
    rw (find-some str d p i e)
      (split_loop_stays f str d p (p + i) ts sps (rw (token_lem str d p i e) empty))

split_loop_rest :
    (f : ℕ) (str : Bytes) (d p i : ℕ) (ts : List Bytes) (sps : List ℕ)
    → index_of d (drop p str) ≡ some i
    → is_empty (take i (drop p str)) ≡ false
    → split_loop f str d
        (p + i + 1)
        (find str d (p + i + 1))
        (ts ++ take i (drop p str) ∷ [])
        (sps ++ p ∷ [])
      ≡ outcome
          (ts ++ take i (drop p str) ∷ [])
          (sps ++ p ∷ [])
          (p + i + 1)
          (segments_from d [] (drop (p + i + 1) str))
    → split_loop f str d
        (p + i + 1)
        (find str d (p + i + 1))
        (ts ++ take i (drop p str) ∷ [])
        (sps ++ p ∷ [])
      ≡ outcome ts sps p (take i (drop p str) ∷ segments_from d [] (drop (suc i) (drop p str)))
split_loop_rest f str d p i ts sps e full ih =
    ih
    ∙ rw (rest_lem str d p i e) (
        outcome-cons (take i (drop p str)) ts sps p i
          (segments_from d [] (drop (suc i) (drop p str))) full
          (length-take_of_lt i (drop p str) (index_of-lt-length d i (drop p str) e)))

-- With more fuel than pieces the loop ends unless a piece is empty, and it has collected them all.
split_loop_lem :
    (f : ℕ) (str : Bytes) (d p : ℕ) (ts : List Bytes) (sps : List ℕ)
    → length (segments_from d [] (drop p str)) < f
    → split_loop f str d p (find str d p) ts sps
      ≡ outcome ts sps p (segments_from d [] (drop p str))
unfolding split_loop
split_loop_lem zero str d p ts sps h = elim h [ ]
split_loop_lem (suc f) str d p ts sps h = elim (Option-cases (index_of d (drop p str))) [
  | inl e ↦
      rw (find-none str d p e, split_loop, segments_from-none d [] (drop p str) e, append-nil ts)
        (rw (append-nil sps))
  | inr (i, e) ↦ elim (Bool-cases (is_empty (take i (drop p str)))) [
    | inl empty ↦
        rw
          (
            split_loop_full (suc f) str d p i ts sps e empty,
            segments_from-some d i [] (drop p str) e,
          )
          (rw empty)
    | inr full ↦
        rw (split_loop_step f str d p i ts sps e full, segments_from-some d i [] (drop p str) e)
          (split_loop_rest f str d p i ts sps e full (
            split_loop_lem f str d (p + i + 1) _ _ (
              rw (rest_lem str d p i e)
                (omega (arith, ap length (segments_from-some d i [] (drop p str) e))))))
  ]
]

-- With more fuel than the text is long, `Split` stores the pieces that a delimiter ends as tokens,
-- counts them, and appends the position at which each begins to the start points; what stands behind
-- the last delimiter is dropped. If one of the pieces is empty, it does not end.
pub split_lem :
    (f : ℕ) (m : NetworkMessage) (str : Bytes) (d : ℕ)
    → length str < f
    → split f m str d ≡ (
        if has_empty (segments d str)
        then err out_of_fuel
        else ok (record m {
          tokens = segments d str;
          start_points = m.start_points ++ starts 0 (segments d str);
          count = length (segments d str);
        }))
unfolding split segments
split_lem f m str d h =
    rw
      (split_loop_lem f str d 0 [] m.start_points (omega (arith, length-segments_from-le d [] str)))
      (ground arith)
