-- ===== src/Message/Segments.antt =====
-- What `Split` of NetworkMessage.h is to compute, without positions: the pieces of a text that a
-- delimiter ends, in order, and the position at which each begins.
use hamang_server.Prelude.{
  Bool, List, [], ap, append-nil, append_assoc, arith, drop, false, if◌then◌else◌, length, none,
  refl, some, suc, take, true, zero, ℕ, ◌++◌, ◌+◌, ◌<◌, ◌==◌, ◌∷◌, ◌≡◌, ◌≤◌,
}
use hamang_server.Text.{Bytes, Lacks, Lacks-lacks, all_lack, index_of, is_empty}

-- The pieces that a delimiter ends, `cur` being the part of the first that is already read. What
-- stands behind the last delimiter belongs to none.
unfoldable pub segments_from : ℕ → Bytes → Bytes → List Bytes
segments_from d cur [] = []
segments_from d cur (c ∷ s) = elim (c == d) [
  | true ↦ cur ∷ segments_from d [] s
  | false ↦ segments_from d (cur ++ c ∷ []) s
]

unfoldable pub segments : ℕ → Bytes → List Bytes
unfolding segments_from
segments d s = segments_from d [] s

-- Where each piece begins, if the first begins at `p`.
abbrev pub starts : ℕ → List Bytes → List ℕ
starts p [] = []
starts p (t ∷ ts) = p ∷ starts (p + length t + 1) ts

abbrev pub has_empty : List Bytes → Bool
has_empty [] = false
has_empty (t ∷ ts) = if is_empty t then true else has_empty ts

-- Every piece with the delimiter behind it.
abbrev pub terminated : ℕ → List Bytes → Bytes
terminated d [] = []
terminated d (t ∷ ts) = t ++ d ∷ terminated d ts

abbrev pub AllLack : ℕ → List Bytes → Type 0
AllLack d [] = Unit
AllLack d (t ∷ ts) = Lacks d t × AllLack d ts

pub length-segments_from-le : (d : ℕ) (cur s : Bytes) → length (segments_from d cur s) ≤ length s
unfolding segments_from
length-segments_from-le d cur [] = omega arith
length-segments_from-le d cur (c ∷ s) =
    ground (arith, length-segments_from-le d [] s, length-segments_from-le d (cur ++ c ∷ []) s)

-- One step by the first delimiter.
pub segments_from-none : (d : ℕ) (cur s : Bytes) → index_of d s ≡ none → segments_from d cur s ≡ []
unfolding segments_from index_of
segments_from-none d cur [] h = refl
segments_from-none d cur (c ∷ s) h = ground (arith, segments_from-none d (cur ++ c ∷ []) s)

pub segments_from-some :
    (d i : ℕ) (cur s : Bytes)
    → index_of d s ≡ some i
    → segments_from d cur s ≡ (cur ++ take i s) ∷ segments_from d [] (drop (suc i) s)
unfolding segments_from index_of
segments_from-some d i cur [] h = cc
segments_from-some d zero cur (c ∷ s) h = ground (arith, append-nil cur)
segments_from-some d (suc i) cur (c ∷ s) h =
    ground (arith, segments_from-some d i (cur ++ c ∷ []) s, append_assoc cur (c ∷ []) (take i s))

pub index_of-lt-length : (d i : ℕ) (s : Bytes) → index_of d s ≡ some i → i < length s
unfolding index_of
index_of-lt-length d i [] h = cc
index_of-lt-length d zero (c ∷ s) h = omega arith
index_of-lt-length d (suc i) (c ∷ s) h = ground (arith, index_of-lt-length d i s)

-- The pieces of a text that was put together from them.
segments_from-piece :
    (d : ℕ) (cur t s : Bytes)
    → Lacks d t
    → segments_from d cur (t ++ d ∷ s) ≡ (cur ++ t) ∷ segments_from d [] s
unfolding segments_from
segments_from-piece d cur [] s h = ground (arith, append-nil cur)
segments_from-piece d cur (c ∷ t) s h =
    ground (arith, segments_from-piece d (cur ++ c ∷ []) t s h.1, append_assoc cur (c ∷ []) t)

segments_from-Lacks : (d : ℕ) (cur s : Bytes) → Lacks d s → segments_from d cur s ≡ []
unfolding segments_from
segments_from-Lacks d cur [] h = refl
segments_from-Lacks d cur (c ∷ s) h = ground (arith, segments_from-Lacks d (cur ++ c ∷ []) s h.1)

pub segments-terminated :
    (d : ℕ) (ts : List Bytes) (rest : Bytes)
    → AllLack d ts
    → Lacks d rest
    → segments d (terminated d ts ++ rest) ≡ ts
unfolding segments
segments-terminated d [] rest h r = segments_from-Lacks d [] rest r
segments-terminated d (t ∷ ts) rest h r =
    rw
      (
        append_assoc t (d ∷ terminated d ts) rest,
        segments_from-piece d [] t (terminated d ts ++ rest) h.0,
      )
      (ap (◌∷◌ t) (segments-terminated d ts rest h.1 r))

pub AllLack-all_lack : (d : ℕ) (ts : List Bytes) → all_lack d ts ≡ true → AllLack d ts
AllLack-all_lack d [] h = tt
AllLack-all_lack d (t ∷ ts) h = ground (arith, AllLack-all_lack d ts, Lacks-lacks d t)

pub AllLack-append :
    (d : ℕ) (ts us : List Bytes) → AllLack d ts → AllLack d us → AllLack d (ts ++ us)
AllLack-append d [] us h k = k
AllLack-append d (t ∷ ts) us h k = (h.0, AllLack-append d ts us h.1 k)

pub has_empty-append :
    (ts us : List Bytes)
    → has_empty ts ≡ false
    → has_empty us ≡ false
    → has_empty (ts ++ us) ≡ false
has_empty-append [] us h k = k
has_empty-append (t ∷ ts) us h k = ground (arith, has_empty-append ts us)
