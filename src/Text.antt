-- ===== src/Text.antt =====
-- The parts of `std::string` that the server uses, over bytes: `find`, `substr`, `compare`.
pub mod Decimal
use Prim.Native.Char.{code}
use hamang_server.Prelude.{
  Bool, List, Option, String, [], arith, drop, false, if◌then◌else◌, none, not, some, suc, take,
  true, ℕ, ◌&&◌, ◌++◌, ◌+◌, ◌==◌, ◌↔◌, ◌∷◌, ◌≡◌, ◌≢◌,
}

abbrev pub Bytes : Type 0
Bytes = List ℕ

-- The bytes of a literal in ASCII.
abbrev pub codes : String → Bytes
codes String.[] = []
codes (String.◌∷◌ c s) = code c ∷ codes s

-- `a.compare(b) == 0`
abbrev pub bytes_eq : Bytes → Bytes → Bool
bytes_eq [] [] = true
bytes_eq [] (d ∷ t) = false
bytes_eq (c ∷ s) [] = false
bytes_eq (c ∷ s) (d ∷ t) = (c == d) && bytes_eq s t

pub bytes_eq_iff : (s t : Bytes) → (bytes_eq s t ≡ true) ↔ (s ≡ t)
bytes_eq_iff [] [] = ground arith
bytes_eq_iff [] (d ∷ t) = ground arith
bytes_eq_iff (c ∷ s) [] = ground arith
bytes_eq_iff (c ∷ s) (d ∷ t) = ground (arith, bytes_eq_iff s t)

abbrev pub is_empty : Bytes → Bool
is_empty [] = true
is_empty (c ∷ s) = false

abbrev pub Lacks : ℕ → Bytes → Type 0
Lacks d [] = Unit
Lacks d (c ∷ s) = (c ≢ d) × Lacks d s

abbrev next_position : Option ℕ → Option ℕ
next_position none = none
next_position (some i) = some (suc i)

-- The first position of a byte.
unfoldable pub index_of : ℕ → Bytes → Option ℕ
index_of d [] = none
index_of d (c ∷ s) = if c == d then some 0 else next_position (index_of d s)

abbrev shifted : ℕ → Option ℕ → Option ℕ
shifted p none = none
shifted p (some i) = some (p + i)

-- `str.find(delim, p)`: the first position of the byte from `p` on.
unfoldable pub find : Bytes → ℕ → ℕ → Option ℕ
find s d p = shifted p (index_of d (drop p s))

-- `str.substr(p, n)`
unfoldable pub substr : Bytes → ℕ → ℕ → Bytes
substr s p n = take n (drop p s)

pub Lacks-append : (d : ℕ) (s t : Bytes) → Lacks d s → Lacks d t → Lacks d (s ++ t)
Lacks-append d [] t h k = k
Lacks-append d (c ∷ s) t h k = (h.0, Lacks-append d s t h.1 k)

abbrev pub lacks : ℕ → Bytes → Bool
lacks d [] = true
lacks d (c ∷ s) = not (c == d) && lacks d s

pub Lacks-lacks : (d : ℕ) (s : Bytes) → lacks d s ≡ true → Lacks d s
Lacks-lacks d [] h = tt
Lacks-lacks d (c ∷ s) h = ground (arith, Lacks-lacks d s)

abbrev pub all_lack : ℕ → List Bytes → Bool
all_lack d [] = true
all_lack d (t ∷ ts) = lacks d t && all_lack d ts
