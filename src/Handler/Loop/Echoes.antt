-- ===== src/Handler/Loop/Echoes.antt =====
-- Packets that the server only hands on: their tokens and numbers, and what is kept of them.
use hamang_server.Prelude.{
  Bool, List, Option, Result, [], err, false, get_elem?, if◌then◌else◌, length, ok, out_of_bounds,
  pos, refl, some, true, ℤ, ◌++◌, ◌+◌, ◌∷◌, ◌≡◌, ◌⊎◌,
}
use hamang_server.Text.{Bytes}
use hamang_server.Text.Decimal.{stoi}
use hamang_server.Protocol.{
  MessageInfo, message_info_of, net_delim, net_sig, server_request, set_hash,
}
use hamang_server.Values.{Rpc}
use hamang_server.Message.{NetworkMessage}
use hamang_server.Message.Segments.{terminated}
use hamang_server.State.{Env, Server}
use hamang_server.Handler.{handle_echo, handle_info, is_buffered}

-- A packet to hand on: its tokens behind the signature, and what the numbers among them are.
pub record Echo : Type 0 where
  pub length_token : Bytes
  pub actor_token : Bytes
  pub info_token : Bytes
  pub body : List Bytes
  pub actor : ℤ
  pub info : ℤ
  pub view : ℤ

abbrev pub echo_tokens : Echo → List Bytes
echo_tokens e = net_sig ∷ e.length_token ∷ e.actor_token ∷ e.info_token ∷ e.body

abbrev pub is_echo : Option MessageInfo → Bool
is_echo (some server_request) = false
is_echo (some set_hash) = false
is_echo _ = true

-- The number in the first token of a body.
abbrev pub first_number : List Bytes → Result ℤ
first_number [] = err out_of_bounds
first_number (t ∷ ts) = stoi t

-- The tokens are the numbers, the length counts the packet's tokens, the kind is one that is handed
-- on, and a packet to be kept begins its body with the view.
pub record IsEcho (e : Echo) : Type 0 where
  pub counted : stoi e.length_token ≡ ok (pos (length e.body + 4))
  pub from_actor : stoi e.actor_token ≡ ok e.actor
  pub of_kind : stoi e.info_token ≡ ok e.info
  pub echoed : is_echo (message_info_of e.info) ≡ true
  pub viewed : (is_buffered (message_info_of e.info) ≡ false) ⊎ (first_number e.body ≡ ok e.view)

-- The entry of the queue that the packet leaves, if any.
abbrev pub kept : Echo → List Rpc
kept e =
    if is_buffered (message_info_of e.info)
    then record {
      player_actor_nr = e.actor;
      view_id = e.view;
      message = terminated net_delim (echo_tokens e);
    }
      ∷ []
    else []

abbrev pub keep : Server → Echo → Server
keep s e = record s { message_queue = s.message_queue ++ kept e }

pub handle_info-echo :
    (env : Env) (info : Option MessageInfo) (m : NetworkMessage) (s : Server)
    → is_echo info ≡ true
    → handle_info env info m s ≡ handle_echo info m s
unfolding handle_info
handle_info-echo env (some server_request) m s h = cc
handle_info-echo env (some set_hash) m s h = cc
handle_info-echo env _ m s h = refl

pub first_number-ok :
    (body rest : List Bytes) (n : ℤ)
    → first_number body ≡ ok n
    → (t : Bytes) × (get_elem? (body ++ rest) 0 ≡ some t) × (stoi t ≡ ok n)
first_number-ok [] rest n h = cc
first_number-ok (t ∷ ts) rest n h = (t, refl, h)
