-- ===== src/Ipc/Tests.antt =====
-- The control socket at a server with two views, and the theorems of ipc.c at it.
use hikari_sakura.Prelude.{
  ℕ, zero, suc, ◌*◌, ◌≢◌, true, false, List, [], ◌∷◌, some, pos, replicate, All, ◌≡◌, refl, arith,
  ◌⊎◌,
}
use hikari_sakura.Stacking.Mapping.{map_view}
use hikari_sakura.Stacking.Tests.{two, two-Inv, pointer, pointer-Sees}
use hikari_sakura.Ipc.Strings.{codes, decimal, behind}
use hikari_sakura.Ipc.Requests.{Session, parse_sheet_nr, state_text, switch_sheet, pin_view}
use hikari_sakura.Ipc.Socket.{
  Ipc, Event, connection, readable, bytes, nothing_yet, run, waits, ends, receive,
}
use hikari_sakura.Ipc.Parsing.{parse_sheet_nr-decimal, state_text_lem, body_text, whole_or_error}
use hikari_sakura.Ipc.Serving.{IsValid}
use hikari_sakura.Ipc.Clients.{IsSound, run-IsSound}
use hikari_sakura.Ipc.Running.{run-IsValid, run_gated}
use hikari_sakura.Ipc.Ending.{converse, converse_ends, receive_request, is_over}

abbrev session : Session
session = record { server = two; has_workspace = true; in_normal_mode = true }

abbrev locked : Session
locked = record {
  server = record two { locked = true };
  has_workspace = true;
  in_normal_mode = false;
}

session-IsValid : IsValid session
unfolding map_view
session-IsValid = record { linkage = two-Inv; normal = λ h. refl }

abbrev socket_of : Session → Ipc
socket_of s = record { clients = []; nr_clients = pos 0; fds = []; sent = []; session = s }

socket-IsSound : (s : Session) → IsSound (socket_of s)
socket-IsSound s = record { counted = refl; bounded = omega arith; waiting = tt; opened = refl }

-- A client comes as the descriptor 7, asks for the sheet 2 in two pieces and is gone.
abbrev requests : List Event
requests =
    connection (record {
      hung_up = false;
      client_fd = some 7;
      closes_on_exec = true;
      does_not_block = true;
      is_allocated = true;
      is_watched = true;
    })
    ∷ readable 7 (bytes (codes "she")) (λ v. false)
    ∷ readable 7 (bytes (codes "et 2\r\n")) (λ v. false)
    ∷ []

abbrev name_of : ℕ → List ℕ
name_of w = codes "eDP-1"

served : (run pointer name_of requests (socket_of session)).sent ≡ (7, codes "ok\n") ∷ []
unfolding run
served = refl

run-IsSound_example : IsSound (run pointer name_of requests (socket_of session))
run-IsSound_example =
    run-IsSound pointer name_of requests (socket_of session) (socket-IsSound session)

-- One client is still connected.
abbrev connected : Ipc
connected = record {
  clients = record { fd = 7; buf = codes "pi" } ∷ [];
  nr_clients = pos 1;
  fds = 7 ∷ [];
  sent = [];
  session = session;
}

connected-IsSound : IsSound connected
unfolding behind
connected-IsSound = record {
  counted = refl;
  bounded = omega arith;
  waiting = ((omega arith, refl), tt);
  opened = refl;
}

run-IsValid_example : IsValid (run pointer name_of requests (socket_of session)).session
run-IsValid_example =
    run-IsValid pointer name_of requests (socket_of session) pointer-Sees (tt, (tt, (tt, tt)))
      session-IsValid

run_gated_example :
    let t = run pointer name_of requests (socket_of locked) in
    (t.session ≡ locked)
    × All
        (λ (p : ℕ × List ℕ).
          (p.1 ≡ codes "error compositor busy\n") ⊎ (p.1 ≡ codes "error request too long\n"))
        t.sent
run_gated_example =
    run_gated pointer name_of requests (socket_of locked) refl refl (tt, (tt, (tt, tt)))

parse_sheet_nr-decimal_example : parse_sheet_nr (some (codes " +007")) ≡ some 7
unfolding decimal
parse_sheet_nr-decimal_example = parse_sheet_nr-decimal (32 ∷ []) true 2 7 (refl, tt)

abbrev counts : ℕ → ℕ
counts i = i * 3

state_text_lem_example :
    state_text 2 (codes "eDP-1") counts ≡ whole_or_error (body_text 2 (codes "eDP-1") counts)
state_text_lem_example = state_text_lem 2 (codes "eDP-1") counts

All-progress : (n : ℕ) → All (λ x. x ≢ nothing_yet) (replicate n (bytes (codes "x")))
All-progress zero = tt
All-progress (suc n) = ((λ e. absurd (ground (arith, e))), All-progress n)

converse_ends_example :
    is_over
      (converse pointer
        (λ v. false)
        name_of
        (replicate 512 (bytes (codes "x")))
        (waits [], session)).0
    ≡ true
unfolding behind
converse_ends_example =
    converse_ends pointer (λ v. false) name_of (replicate 512 (bytes (codes "x"))) [] session
      (omega arith, refl) (All-progress 512) (omega arith)

receive_request_example :
    (receive pointer (λ v. false) name_of (bytes (codes "sheet 2\n")) [] session
      ≡ (ends (some (codes "ok\n")), record session { server = switch_sheet pointer 0 2 two }))
    × (receive pointer (λ v. false) name_of (bytes (codes "pin 2\n")) [] session ≡ (
      ends (some (pin_view pointer (λ v. false) name_of 2 (two.focus_view 0) session).1),
      (pin_view pointer (λ v. false) name_of 2 (two.focus_view 0) session).0,
    ))
unfolding decimal map_view
receive_request_example =
    receive_request pointer (λ v. false) name_of session refl refl 2 [] (omega arith)
