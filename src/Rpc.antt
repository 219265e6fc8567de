-- ===== src/Rpc.antt =====
-- BufferedMessages.cpp: the messages that a player who joins later is sent. The mutex makes each
-- operation one step.
pub mod Views
pub mod Batches
use hamang_server.Prelude.{
  List, Result, [], eqz, err, if◌then◌else◌, length, ltb, ok, out_of_fuel, suc, zero, ℕ, ℤ, ◌&&◌,
  ◌++◌, ◌+◌, ◌>>=◌, ◌>>◌, ◌∷◌,
}
use hamang_server.Text.{Bytes}
use hamang_server.Values.{Rpc, batch_limit}

unfoldable pub enqueue_message : List Rpc → ℤ → ℤ → Bytes → List Rpc
enqueue_message queue player_nr view_id message =
    queue ++ record { player_actor_nr = player_nr; view_id = view_id; message = message } ∷ []

unfoldable pub remove_player_nr : List Rpc → ℤ → List Rpc
remove_player_nr [] player_nr = []
remove_player_nr (r ∷ queue) player_nr =
    let rest = remove_player_nr queue player_nr in
    if eqz r.player_actor_nr player_nr then rest else r ∷ rest

unfoldable pub remove_view_id : List Rpc → ℤ → List Rpc
remove_view_id [] view_id = []
remove_view_id (r ∷ queue) view_id =
    let rest = remove_view_id queue view_id in if eqz r.view_id view_id then rest else r ∷ rest

unfoldable pub remove_rpc : List Rpc → ℤ → ℤ → List Rpc
remove_rpc [] player_nr view_id = []
remove_rpc (r ∷ queue) player_nr view_id =
    let rest = remove_rpc queue player_nr view_id in
    if eqz r.view_id view_id && eqz r.player_actor_nr player_nr then rest else r ∷ rest

-- Every entry is erased, from the front.
unfoldable pub remove_all : List Rpc → List Rpc
remove_all [] = []
remove_all (r ∷ queue) = remove_all queue

-- The inner loop of `SendBufferedMessages`: messages are appended while they fit. One that does not
-- fit leaves the iterator where it is.
unfoldable pub gather : ℕ → Bytes → List Rpc → Result (Bytes × List Rpc)
gather zero message queue = err out_of_fuel
gather (suc f) message [] = ok (message, [])
gather (suc f) message (r ∷ queue) =
    let joined = gather f (message ++ r.message) queue in
    let stay = gather f message (r ∷ queue) in
    if ltb (length message + length r.message) batch_limit then joined else stay

-- The outer loop, which hands each batch to `send`, a step on a state.
unfoldable pub send_batches : {S : Type 0} → (Bytes → S → Result S) → ℕ → List Rpc → S → Result S
unfolding gather
send_batches send zero queue s = err out_of_fuel
send_batches send (suc f) [] s = ok s
send_batches send (suc f) (r ∷ queue) s = do
  (message, left) ← gather f r.message queue
  s' ← send message s
  send_batches send f left s'
