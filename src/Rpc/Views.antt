-- ===== src/Rpc/Views.antt =====
-- The queue of buffered messages seen as a map from a player and a view to a sequence of messages.
use hamang_server.Prelude.{
  Bool, List, [], arith, eqz, eqz_iff, if◌then◌else◌, refl, ℤ, ◌&&◌, ◌++◌, ◌∷◌, ◌≡◌,
}
use hamang_server.Text.{Bytes}
use hamang_server.Values.{Rpc}
use hamang_server.Rpc.{enqueue_message, remove_all, remove_player_nr, remove_rpc, remove_view_id}

-- Whether an entry is one of the player's for the view.
abbrev pub is_for : ℤ → ℤ → Rpc → Bool
is_for nr view r = eqz r.player_actor_nr nr && eqz r.view_id view

-- The messages of a player for a view, oldest first.
unfoldable pub messages_of : List Rpc → ℤ → ℤ → List Bytes
messages_of [] nr view = []
messages_of (r ∷ queue) nr view =
    let rest = messages_of queue nr view in if is_for nr view r then r.message ∷ rest else rest

-- A new message comes last among those of its player and view, and touches no others.
messages_of-enqueue_message :
    (queue : List Rpc) (nr view : ℤ) (message : Bytes) (nr' view' : ℤ)
    → messages_of (enqueue_message queue nr view message) nr' view' ≡ (
        if eqz nr nr' && eqz view view'
        then messages_of queue nr' view' ++ message ∷ []
        else messages_of queue nr' view')
unfolding messages_of enqueue_message
messages_of-enqueue_message [] nr view message nr' view' = refl
messages_of-enqueue_message (r ∷ queue) nr view message nr' view' =
    ground (arith, messages_of-enqueue_message queue nr view message nr' view')

pub messages_of-remove_player_nr :
    (queue : List Rpc) (nr nr' view' : ℤ)
    → messages_of (remove_player_nr queue nr) nr' view'
      ≡ (if eqz nr nr' then [] else messages_of queue nr' view')
unfolding messages_of remove_player_nr
messages_of-remove_player_nr [] nr nr' view' = ground arith
messages_of-remove_player_nr (r ∷ queue) nr nr' view' = ground (
  arith,
  messages_of-remove_player_nr queue nr nr' view',
  eqz_iff r.player_actor_nr nr,
  eqz_iff r.player_actor_nr nr',
  eqz_iff nr nr',
)

pub messages_of-remove_view_id :
    (queue : List Rpc) (view nr' view' : ℤ)
    → messages_of (remove_view_id queue view) nr' view'
      ≡ (if eqz view view' then [] else messages_of queue nr' view')
unfolding messages_of remove_view_id
messages_of-remove_view_id [] view nr' view' = ground arith
messages_of-remove_view_id (r ∷ queue) view nr' view' = ground (
  arith,
  messages_of-remove_view_id queue view nr' view',
  eqz_iff r.view_id view,
  eqz_iff r.view_id view',
  eqz_iff view view',
)

pub messages_of-remove_rpc :
    (queue : List Rpc) (nr view nr' view' : ℤ)
    → messages_of (remove_rpc queue nr view) nr' view'
      ≡ (if eqz nr nr' && eqz view view' then [] else messages_of queue nr' view')
unfolding messages_of remove_rpc
messages_of-remove_rpc [] nr view nr' view' = ground arith
messages_of-remove_rpc (r ∷ queue) nr view nr' view' = ground (
  arith,
  messages_of-remove_rpc queue nr view nr' view',
  eqz_iff r.player_actor_nr nr,
  eqz_iff r.player_actor_nr nr',
  eqz_iff nr nr',
  eqz_iff r.view_id view,
  eqz_iff r.view_id view',
  eqz_iff view view',
)

messages_of-remove_all :
    (queue : List Rpc) (nr' view' : ℤ) → messages_of (remove_all queue) nr' view' ≡ []
unfolding messages_of remove_all
messages_of-remove_all [] nr' view' = refl
messages_of-remove_all (r ∷ queue) nr' view' = messages_of-remove_all queue nr' view'

-- At every player and view the operations are those of a map to sequences of messages: a new message
-- comes last at its own player and view and changes no other place; the removals by player, by view
-- and by both empty exactly the places that they name; and the removal of all empties every place.
pub messages_of-operations :
    (queue : List Rpc) (nr view : ℤ) (message : Bytes) (nr' view' : ℤ)
    → (messages_of (enqueue_message queue nr view message) nr' view' ≡ (
        if eqz nr nr' && eqz view view'
        then messages_of queue nr' view' ++ message ∷ []
        else messages_of queue nr' view'))
      × (messages_of (remove_player_nr queue nr) nr' view'
          ≡ (if eqz nr nr' then [] else messages_of queue nr' view'))
      × (messages_of (remove_view_id queue view) nr' view'
          ≡ (if eqz view view' then [] else messages_of queue nr' view'))
      × (messages_of (remove_rpc queue nr view) nr' view'
          ≡ (if eqz nr nr' && eqz view view' then [] else messages_of queue nr' view'))
      × (messages_of (remove_all queue) nr' view' ≡ [])
messages_of-operations queue nr view message nr' view' = (
  messages_of-enqueue_message queue nr view message nr' view',
  messages_of-remove_player_nr queue nr nr' view',
  messages_of-remove_view_id queue view nr' view',
  messages_of-remove_rpc queue nr view nr' view',
  messages_of-remove_all queue nr' view',
)
