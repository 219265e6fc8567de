-- ===== src/Ping.antt =====
-- PingManager.h and PingManager.cpp: when each player was last heard of, and the server's time. The
-- system clock is a parameter, the value of its n-th reading in milliseconds.
use hamang_server.Prelude.{
  List, Result, [], eqz, if◌then◌else◌, negsuc, ok, pos, sub_ℕ, suc, true, ℕ, ℤ, ◌+◌, ◌-ℤ◌, ◌/◌,
  ◌>>=◌, ◌∷◌,
}
use hamang_server.Text.{Bytes}
use hamang_server.Text.Decimal.{to_string}
use hamang_server.Protocol.{callback_code, message_info_code, modify_server_time, server_callbacks}
use hamang_server.Message.{append, append_int, build_new_signed_message, new_message}
use hamang_server.Player.{Network, Player, send}

pub record PingManager : Type 0 where
  pub ping_records : List (ℤ × ℤ)
  pub server_time : ℤ
  -- how often the clock has been read
  pub readings : ℕ

-- `pingRecords[k]`: a missing record reads as 0.
unfoldable pub get_ping : ℤ → List (ℤ × ℤ) → ℤ
get_ping k [] = pos 0
get_ping k ((j, t) ∷ records) = if eqz j k then t else get_ping k records

-- `pingRecords[k] = t`
unfoldable pub set_ping : ℤ → ℤ → List (ℤ × ℤ) → List (ℤ × ℤ)
set_ping k t [] = (k, t) ∷ []
set_ping k t ((j, u) ∷ records) =
    if eqz j k then (k, t) ∷ records else (j, u) ∷ set_ping k t records

-- `x * 0.5` as a `long long`: half of it, cut towards 0.
unfoldable pub half : ℤ → ℤ
half (pos n) = pos (n / 2)
half (negsuc n) = sub_ℕ 0 (suc n / 2)

unfoldable pub time_sync_message : Player → ℤ → Bytes
time_sync_message player time_value = build_new_signed_message (
    append
      (append_int
        (append_int
          (append_int (append_int new_message (pos 0)) (pos (message_info_code server_callbacks)))
          (pos (callback_code modify_server_time)))
        player.actor_number)
      (to_string time_value))

unfoldable pub record_ping : PingManager → ℤ → ℤ → PingManager
unfolding set_ping
record_ping pm player time_sent = record pm {
  ping_records = set_ping player time_sent pm.ping_records;
}

module _ (clock : ℕ → ℤ) where
  -- `UpdateTime` and `GetTimeNow`
  unfoldable pub get_time_now : PingManager → ℤ × PingManager
  get_time_now pm =
      let now = clock pm.readings in
      (now, record pm { server_time = now; readings = pm.readings + 1 })

  unfoldable pub new_ping_manager : PingManager
  unfolding get_time_now
  new_ping_manager =
      (get_time_now (record { ping_records = []; server_time = pos 0; readings = 0 })).1

  unfoldable pub time_sync_send : Player → ℤ → Network → Result Network
  time_sync_send player time_value net = send player (time_sync_message player time_value) true net

  -- The time since the last message of the player, halved, is sent back as the one-way latency.
  unfoldable pub time_synch_receive :
      PingManager → Player → Network → Result (PingManager × Network)
  unfolding get_time_now time_sync_send get_ping set_ping half
  time_synch_receive pm player net = do
    let (time_now, pm') = get_time_now pm
    let elapsed_time = time_now -ℤ get_ping player.actor_number pm'.ping_records
    let records = set_ping player.actor_number time_now pm'.ping_records
    net' ← time_sync_send player (half elapsed_time) net
    ok (record pm' { ping_records = records }, net')
