-- ===== src/Message/Cursor.antt =====
-- Reading on at a cursor that stands at a known token.
use hamang_server.Prelude.{
  Fault, arith, err, false, get_elem?, length, lt→ltb, ok, pos, some, true, ℕ, ℤ, ◌+◌, ◌<◌, ◌^◌,
  ◌≡◌, ◌≤◌,
}
use hamang_server.Text.{Bytes}
use hamang_server.Text.Decimal.{stoi}
use hamang_server.Message.{NetworkMessage, get_next, get_next_int, has_next, set_end_point, wrap32}

pub get_next_at :
    (m : NetworkMessage) (token : Bytes)
    → get_elem? m.tokens m.iterator ≡ some token
    → m.iterator + 1 < 2 ^ 32
    → get_next m ≡ ok (token, record m { iterator = m.iterator + 1 })
unfolding get_next
get_next_at m token h k =
    rw h (let e : wrap32 (m.iterator + 1) ≡ m.iterator + 1 = omega arith in rw e)

pub get_next_int_at :
    (m : NetworkMessage) (token : Bytes) (n : ℤ)
    → get_elem? m.tokens m.iterator ≡ some token
    → stoi token ≡ ok n
    → m.iterator + 1 < 2 ^ 32
    → get_next_int m ≡ ok (n, record m { iterator = m.iterator + 1 })
unfolding get_next_int
get_next_int_at m token n h e k = rw (get_next_at m token h k, e)

-- A token that is no number, and a cursor behind the last token.
pub get_next_int-err :
    (m : NetworkMessage) (token : Bytes) (fault : Fault)
    → get_elem? m.tokens m.iterator ≡ some token
    → stoi token ≡ err fault
    → get_next_int m ≡ err fault
unfolding get_next_int
get_next_int-err m token fault h e = rw (h, e)

pub has_next_lem : (m : NetworkMessage) → m.iterator < length m.tokens → has_next m ≡ true
unfolding has_next
has_next_lem m h = lt→ltb m.iterator (length m.tokens) h

-- A packet that ends within the tokens is complete.
pub set_end_point_complete :
    (m : NetworkMessage) (n start : ℕ)
    → get_elem? m.start_points m.begin_point ≡ some start
    → m.begin_point + n ≤ length m.tokens
    → length m.tokens < 2 ^ 32
    → set_end_point m (pos n) ≡ ok (true, record m { end_point = m.begin_point + n })
unfolding set_end_point
set_end_point_complete m n start h k few =
    let e : wrap32 (m.begin_point + n) ≡ m.begin_point + n = omega arith in rw (h, e) (ground arith)

-- A packet that ends behind the tokens is not, and is to be resumed where it begins.
pub set_end_point_incomplete :
    (m : NetworkMessage) (n start : ℕ)
    → get_elem? m.start_points m.begin_point ≡ some start
    → length m.tokens < m.begin_point + n
    → m.begin_point + n < 2 ^ 32
    → set_end_point m (pos n)
      ≡ ok (false, record m { end_point = m.begin_point + n; incomplete_resume_point = start })
unfolding set_end_point
set_end_point_incomplete m n start h k few =
    let e : wrap32 (m.begin_point + n) ≡ m.begin_point + n = omega arith in rw (h, e) (ground arith)
