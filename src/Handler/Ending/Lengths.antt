-- ===== src/Handler/Ending/Lengths.antt =====
-- The lengths that packets declare, and what is known once one was read.
use mathlib.Core.Path.{subst}
use hamang_server.Prelude.{
  Anything, Bool, Bool-cases, Ends, Ends-and_Returns, Ends-bind, Ends-of_ends, InInt, List,
  Option-cases, Returns, [], ap, arith, false, get_elem?, inl, inr, length, lt-length_of_get_elem?,
  ltb, negsuc, ok, or_fault, or_fault-ends, out_of_bounds, pos, pos_part, refl, some, suc, sym,
  true, zero, ℕ, ℤ, ◌+◌, ◌<◌, ◌>>=◌, ◌^◌, ◌∙◌, ◌∷◌, ◌≡◌, ◌≤◌, ◌⊎◌,
}
use hamang_server.Text.{Bytes, bytes_eq}
use hamang_server.Text.Decimal.{stoi}
use hamang_server.Text.Decimal.Range.{stoi-InInt}
use hamang_server.Protocol.{net_sig}
use hamang_server.Message.{NetworkMessage, get_next, get_next_int, has_next, set_end_point, wrap32}
use hamang_server.Message.Within.{IsWithin}
use hamang_server.Handler.{check_message_complete}

-- If the token is a number at all, it is above 0.
abbrev pub IsLengthIfNumber : Bytes → Type 0
IsLengthIfNumber token = Returns (λ (n : ℤ). 0 < pos_part n) (stoi token)

-- Behind each signature, the token that is read as the packet's length is above 0.
abbrev pub DeclaresLengths : List Bytes → Type 0
DeclaresLengths [] = Unit
DeclaresLengths (token ∷ []) = Unit
DeclaresLengths (token ∷ size ∷ ts) =
    ((bytes_eq token net_sig ≡ false) ⊎ IsLengthIfNumber size) × DeclaresLengths (size ∷ ts)

declared :
    (ts : List Bytes) (i : ℕ) (token size : Bytes)
    → DeclaresLengths ts
    → get_elem? ts i ≡ some token
    → bytes_eq token net_sig ≡ true
    → get_elem? ts (suc i) ≡ some size
    → IsLengthIfNumber size
declared [] i token size h at mine next = cc
declared (t ∷ []) i token size h at mine next = cc
declared (t ∷ u ∷ ts) zero token size (inl foreign, more) at mine next =
    let same : t ≡ token = cc in cc (mine, foreign, ap (λ (x : Bytes). bytes_eq x net_sig) same)
declared (t ∷ u ∷ ts) zero token size (inr sized, more) at mine next =
    let same : u ≡ size = cc in subst IsLengthIfNumber same sized
declared (t ∷ u ∷ ts) (suc i) token size (first, more) at mine next =
    declared (u ∷ ts) i token size more at mine next

module _ (ts : List Bytes) (few : length ts < 2 ^ 31) where
  -- What is known behind the length of a packet that is complete.
  abbrev pub IsOpen : ℕ → Bool × NetworkMessage → Type 0
  IsOpen begin got =
      (got.0 ≡ false)
      ⊎ ((end : ℕ) × (begin < end) × (end ≤ length ts) × IsWithin ts begin end got.1)

  set_end_point-IsOpen :
      (begin : ℕ) (m : NetworkMessage) (n : ℤ)
      → m.tokens ≡ ts
      → m.begin_point ≡ begin
      → begin < m.iterator
      → m.iterator ≤ length ts
      → InInt n
      → 0 < pos_part n
      → Ends (IsOpen begin) (set_end_point m n)
  unfolding set_end_point
  set_end_point-IsOpen begin m (negsuc n) same at behind inside int positive = absurd (omega arith)
  set_end_point-IsOpen begin m (pos n) same at behind inside int positive =
      let size : length m.tokens ≡ length ts = ap length same in
      let end : wrap32 (m.begin_point + n) ≡ begin + n = omega arith in
      Ends-bind Anything (IsOpen begin)
        (or_fault (get_elem? m.start_points m.begin_point) out_of_bounds) _
        (Ends-of_ends _ (or_fault-ends _ _ refl))
        λ start _. rw end (elim (Bool-cases (ltb (length m.tokens) (begin + n))) [
          | inl cut ↦ rw cut (inl refl)
          | inr whole ↦ rw whole (
              inr (
                begin + n,
                omega arith,
                ground arith,
                record { same_tokens = same; same_end = refl; behind = behind; inside = inside },
              ))
        ])

  pub check_message_complete-IsOpen :
      (begin : ℕ) (m : NetworkMessage) (token : Bytes)
      → DeclaresLengths ts
      → m.tokens ≡ ts
      → m.begin_point ≡ begin
      → m.iterator ≡ suc begin
      → get_elem? ts begin ≡ some token
      → bytes_eq token net_sig ≡ true
      → Ends (IsOpen begin) (check_message_complete m)
  unfolding check_message_complete get_next_int get_next
  check_message_complete-IsOpen begin m token lengths same at next signed mine =
      let after = record m { iterator = m.iterator + 1 } in
      let IsNumbered : ℤ × NetworkMessage → Type 0 = (λ got.
        InInt got.0
        × (0 < pos_part got.0)
        × (got.1.tokens ≡ ts)
        × (got.1.begin_point ≡ begin)
        × (begin < got.1.iterator)
        × (got.1.iterator ≤ length ts)) in
      elim (Bool-cases (has_next m)) [
        | inr last ↦ rw last (inl refl)
        | inl more ↦ rw more (elim (Option-cases (get_elem? m.tokens m.iterator)) [
          | inl e ↦ rw e refl
          | inr (size, e) ↦
              let there = lt-length_of_get_elem? m.tokens m.iterator size e in
              let count : length m.tokens ≡ length ts = ap length same in
              let moved : wrap32 (m.iterator + 1) ≡ m.iterator + 1 = omega (arith, there) in
              let at_size : get_elem? ts (suc begin) ≡ some size =
                rw (← same) (ap (get_elem? m.tokens) (sym next) ∙ e) in
              let sized = declared ts begin token size lengths signed mine at_size in
              let good =
                Ends-and_Returns InInt (λ (n : ℤ). 0 < pos_part n) (stoi size) (stoi-InInt size)
                  sized in
              rw (e, moved)
                (Ends-bind IsNumbered (IsOpen begin) (stoi size >>= λ n. ok (n, after)) _
                  (Ends-bind (λ (n : ℤ). InInt n × (0 < pos_part n)) IsNumbered (stoi size) _ good
                    λ n w. (w.0, w.1, same, at, omega arith, omega (arith, there)))
                  λ got w. set_end_point-IsOpen begin got.1 got.0 w.2 w.3 w.4 w.5 w.0 w.1)
        ])
      ]
