-- ===== src/Ipc/Socket.antt =====
-- The connections of ipc.c. A descriptor is a number. What the kernel answers to `accept`, `fcntl`,
-- `read` and `write` comes with the event.
use hikari_sakura.Prelude.{
  ℕ, ◌-◌, Bool, not, ◌==◌, if◌then◌else◌, List, [], ◌∷◌, ◌++◌, Option, none, some, ℤ, pos, ◌+ℤ◌,
  ◌-ℤ◌, ltb_ℤ, length, take,
}
use hikari_sakura.Stacking.State.{Server}
use hikari_sakura.Stacking.Pointer.{Hit}
use hikari_sakura.Ipc.Strings.{codes, before, behind}
use hikari_sakura.Ipc.Requests.{Session, dispatch}

-- `HIKARI_IPC_MAX_REQUEST` and `HIKARI_IPC_MAX_CLIENTS`.
abbrev pub max_request : ℕ
max_request = 512

abbrev pub max_clients : ℕ
max_clients = 8

-- `struct hikari_ipc_client`: the `len` bytes of its `buf`.
pub record Client : Type 0 where
  pub fd : ℕ
  pub buf : List ℕ

-- The fields of `struct hikari_server` that ipc.c keeps, the descriptors that the process has open
-- for it, and what was sent, the last text first.
pub record Ipc : Type 0 where
  pub clients : List Client
  pub nr_clients : ℤ
  pub fds : List ℕ
  pub sent : List (ℕ × List ℕ)
  pub session : Session

-- What a readable descriptor gives: a hangup or an error in the mask, nothing yet, an error of
-- `read`, or the bytes that are there, none at the end of the stream.
pub data Input : Type 0 where
  hangup : Input
  nothing_yet : Input
  failed : Input
  bytes : List ℕ → Input

-- What `accept` gives, and whether the calls that set it up succeed.
pub record Connection : Type 0 where
  pub hung_up : Bool
  pub client_fd : Option ℕ
  pub closes_on_exec : Bool
  pub does_not_block : Bool
  pub is_allocated : Bool
  pub is_watched : Bool

-- The descriptor of one client leaves a list.
unfoldable pub drop_client : ℕ → List Client → List Client
drop_client fd [] = []
drop_client fd (c ∷ cs) = let rest = drop_client fd cs in if c.fd == fd then cs else c ∷ rest

unfoldable pub close_fd : ℕ → List ℕ → List ℕ
close_fd fd [] = []
close_fd fd (f ∷ fs) = let rest = close_fd fd fs in if f == fd then fs else f ∷ rest

-- `client_destroy`.
unfoldable pub client_destroy : ℕ → Ipc → Ipc
unfolding drop_client close_fd
client_destroy fd i = record i {
  clients = drop_client fd i.clients;
  fds = close_fd fd i.fds;
  nr_clients = i.nr_clients -ℤ pos 1;
}

-- `accept` has given a descriptor.
unfoldable pub refuse : ℕ → Ipc → Ipc
unfolding close_fd
refuse fd i = record i { fds = close_fd fd i.fds }

unfoldable pub connect : ℕ → Connection → Ipc → Ipc
unfolding client_destroy refuse ltb_ℤ
connect fd c i =
    let fresh : Client = record { fd = fd; buf = [] } in
    let added = record i { clients = fresh ∷ i.clients; nr_clients = i.nr_clients +ℤ pos 1 } in
    if not (ltb_ℤ i.nr_clients (pos max_clients))
    then refuse fd i
    else if not c.closes_on_exec
    then refuse fd i
    else if not c.does_not_block
    then refuse fd i
    else if not c.is_allocated
    then refuse fd i
    else if not c.is_watched
    then client_destroy fd added
    else added

-- `socket_connection`.
unfoldable pub socket_connection : Connection → Ipc → Ipc
unfolding connect
socket_connection c i =
    if c.hung_up
    then i
    else elim c.client_fd [ none ↦ i | some fd ↦ connect fd c (record i { fds = fd ∷ i.fds }) ]

-- The loop of `hikari_ipc_fini`.
unfoldable pub destroy_each : List Client → Ipc → Ipc
unfolding client_destroy
destroy_each [] i = i
destroy_each (c ∷ cs) i = destroy_each cs (client_destroy c.fd i)

-- The clients of `hikari_ipc_fini`.
unfoldable pub fini_clients : Ipc → Ipc
unfolding destroy_each
fini_clients i = destroy_each i.clients i

-- The carriage return of a CRLF.
unfoldable pub strip_return : List ℕ → List ℕ
strip_return [] = []
strip_return (c ∷ []) = if c == 13 then [] else c ∷ []
strip_return (c ∷ d ∷ cs) = c ∷ strip_return (d ∷ cs)

-- The string at the beginning of the buffer, once the end of its line is overwritten.
unfoldable pub line_of : List ℕ → List ℕ
unfolding strip_return before
line_of buf = before 0 (strip_return (before 10 buf))

-- What becomes of a client: it waits with what it has read, or it is destroyed, and a text may have
-- been sent to it before.
pub data Verdict : Type 0 where
  waits : List ℕ → Verdict
  ends : Option (List ℕ) → Verdict

module _ (hit : Server → Hit) (is_dirty : ℕ → Bool) (output_name : ℕ → List ℕ) where
  -- The buffer is searched for a line.
  unfoldable pub take_line : List ℕ → Session → Verdict × Session
  unfolding dispatch line_of behind
  take_line buf s = elim (behind 10 buf) [
    | some rest ↦
        let answer = dispatch hit is_dirty output_name (line_of buf) s in
        (ends (some answer.1), answer.0)
    | none ↦
        if length buf == max_request
        then (ends (some (codes "error request too long\n")), s)
        else (waits buf, s)
  ]

  -- The bytes that `read` has room for.
  unfoldable pub read_bytes : List ℕ → List ℕ → Session → Verdict × Session
  unfolding take_line
  read_bytes [] buf s = (ends none, s)
  read_bytes (b ∷ bs) buf s = take_line (buf ++ b ∷ bs) s

  -- `client_readable`, for the buffer of its client.
  unfoldable pub receive : Input → List ℕ → Session → Verdict × Session
  unfolding read_bytes
  receive hangup buf s = (ends none, s)
  receive nothing_yet buf s = (waits buf, s)
  receive failed buf s = (ends none, s)
  receive (bytes there) buf s = read_bytes (take (max_request - length buf) there) buf s

-- What the client of a descriptor has sent so far.
unfoldable pub buf_of : ℕ → List Client → Option (List ℕ)
buf_of fd [] = none
buf_of fd (c ∷ cs) = let rest = buf_of fd cs in if c.fd == fd then some c.buf else rest

unfoldable pub set_buf : ℕ → List ℕ → List Client → List Client
set_buf fd buf [] = []
set_buf fd buf (c ∷ cs) =
    let rest = set_buf fd buf cs in
    if c.fd == fd then record { fd = c.fd; buf = buf } ∷ cs else c ∷ rest

unfoldable pub respond : ℕ → Option (List ℕ) → Ipc → Ipc
respond fd none i = i
respond fd (some text) i = record i { sent = (fd, text) ∷ i.sent }

unfoldable pub settle_client : ℕ → Verdict × Session → Ipc → Ipc
unfolding set_buf respond client_destroy
settle_client fd (waits buf, s) i = record i { clients = set_buf fd buf i.clients; session = s }
settle_client fd (ends text, s) i = client_destroy fd (respond fd text (record i { session = s }))

-- What the event loop hands to ipc.c: a connection, a readable client (with the views whose own
-- clients are under way), and what the rest of the program does in between.
pub data Event : Type 0 where
  connection : Connection → Event
  readable : ℕ → Input → (ℕ → Bool) → Event
  elsewhere : (Session → Session) → Event

module _ (hit : Server → Hit) (output_name : ℕ → List ℕ) where
  -- `client_readable` for the client of a descriptor, whose event source goes with it.
  unfoldable pub client_readable : ℕ → Input → (ℕ → Bool) → Ipc → Ipc
  unfolding receive settle_client buf_of
  client_readable fd input is_dirty i = elim (buf_of fd i.clients) [
    | none ↦ i
    | some buf ↦ settle_client fd (receive hit is_dirty output_name input buf i.session) i
  ]

  unfoldable pub handle : Event → Ipc → Ipc
  unfolding socket_connection client_readable
  handle (connection c) i = socket_connection c i
  handle (readable fd input is_dirty) i = client_readable fd input is_dirty i
  handle (elsewhere change) i = record i { session = change i.session }

  unfoldable pub run : List Event → Ipc → Ipc
  unfolding handle
  run [] i = i
  run (e ∷ es) i = run es (handle e i)
