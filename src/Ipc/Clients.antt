-- ===== src/Ipc/Clients.antt =====
-- The bookkeeping of ipc.c's connections: descriptors, their number, and what waits in their
-- buffers.
use hikari_sakura.Prelude.{
  ℕ, zero, suc, ◌+◌, ◌-◌, ◌≤◌, ◌<◌, Bool, true, not, ◌==◌, List, [], ◌∷◌, ◌++◌, map, none, some,
  pos, ◌+ℤ◌, ltb_ℤ, length, length-append, take, All, ◌≡◌, refl, ap, subst, arith, if_elim,
  Option-cases, Bool-cases, inl, inr, int_laws,
}
use hikari_sakura.Stacking.State.{Server}
use hikari_sakura.Stacking.Pointer.{Hit}
use hikari_sakura.Ipc.Strings.{behind}
use hikari_sakura.Ipc.Requests.{Session}
use hikari_sakura.Ipc.Socket.{
  max_request, max_clients, Client, Ipc, Input, Connection, drop_client, close_fd, client_destroy,
  refuse, connect, socket_connection, destroy_each, fini_clients, Verdict, waits, ends, take_line,
  read_bytes, receive, buf_of, set_buf, respond, settle_client, Event, connection, readable,
  elsewhere, client_readable, handle, run, hangup, nothing_yet, failed, bytes,
}

-- A client that is not served yet: its buffer has room, and holds no complete line.
abbrev pub IsWaiting : List ℕ → Type 0
IsWaiting buf = (length buf < max_request) × (behind 10 buf ≡ none)

-- The descriptors are those of the clients, which are counted, at most eight, and all waiting.
pub record IsSound (i : Ipc) : Type 0 where
  pub counted : i.nr_clients ≡ pos (length i.clients)
  pub bounded : length i.clients ≤ max_clients
  pub waiting : All (λ (c : Client). IsWaiting c.buf) i.clients
  pub opened : i.fds ≡ map (λ (c : Client). c.fd) i.clients

abbrev fds_of : List Client → List ℕ
fds_of = map (λ c. c.fd)

drop_client_fds : (fd : ℕ) (cs : List Client) → close_fd fd (fds_of cs) ≡ fds_of (drop_client fd cs)
unfolding drop_client close_fd
drop_client_fds fd [] = refl
drop_client_fds fd (c ∷ cs) = ground (arith, drop_client_fds fd cs)

drop_client-All :
    (P : Client → Type 0) (fd : ℕ) (cs : List Client) → All P cs → All P (drop_client fd cs)
unfolding drop_client
drop_client-All P fd [] h = tt
drop_client-All P fd (c ∷ cs) h =
    if_elim (All P) (c.fd == fd) (λ _. h.1) (λ _. (h.0, drop_client-All P fd cs h.1))

length-drop_client :
    (fd : ℕ) (cs : List Client) (buf : List ℕ)
    → buf_of fd cs ≡ some buf
    → length (drop_client fd cs) + 1 ≡ length cs
unfolding drop_client buf_of
length-drop_client fd [] buf h = ground arith
length-drop_client fd (c ∷ cs) buf h = ground (arith, length-drop_client fd cs buf)

set_buf_fds : (fd : ℕ) (buf : List ℕ) (cs : List Client) → fds_of (set_buf fd buf cs) ≡ fds_of cs
unfolding set_buf
set_buf_fds fd buf [] = refl
set_buf_fds fd buf (c ∷ cs) = ground (arith, set_buf_fds fd buf cs)

length-set_buf : (fd : ℕ) (buf : List ℕ) (cs : List Client) → length (set_buf fd buf cs) ≡ length cs
unfolding set_buf
length-set_buf fd buf [] = refl
length-set_buf fd buf (c ∷ cs) = ground (arith, length-set_buf fd buf cs)

set_buf-All :
    (P : List ℕ → Type 0) (fd : ℕ) (buf : List ℕ) (cs : List Client)
    → P buf
    → All (λ (c : Client). P c.buf) cs
    → All (λ (c : Client). P c.buf) (set_buf fd buf cs)
unfolding set_buf
set_buf-All P fd buf [] p h = tt
set_buf-All P fd buf (c ∷ cs) p h =
    if_elim (All (λ (c : Client). P c.buf)) (c.fd == fd) (λ _. (p, h.1))
      (λ _. (h.0, set_buf-All P fd buf cs p h.1))

buf_of-All :
    (P : List ℕ → Type 0) (fd : ℕ) (buf : List ℕ) (cs : List Client)
    → All (λ (c : Client). P c.buf) cs
    → buf_of fd cs ≡ some buf
    → P buf
unfolding buf_of
buf_of-All P fd buf [] h e = absurd (ground arith)
buf_of-All P fd buf (c ∷ cs) h e = elim (Bool-cases (c.fd == fd)) [
  | inl same ↦ subst P (ground arith) h.0
  | inr other ↦ buf_of-All P fd buf cs h.1 (ground arith)
]

-- A client that is found is destroyed.
client_destroy-IsSound :
    (fd : ℕ) (i : Ipc) (buf : List ℕ)
    → IsSound i
    → buf_of fd i.clients ≡ some buf
    → IsSound (client_destroy fd i)
unfolding client_destroy
client_destroy-IsSound fd i buf s found =
    let l = length-drop_client fd i.clients buf found in
    record {
      counted = grind (int_laws, s.counted, l);
      bounded = omega (arith, s.bounded, l);
      waiting = drop_client-All _ fd i.clients s.waiting;
      opened = cc (s.opened, drop_client_fds fd i.clients);
    }

refuse-IsSound :
    (fd : ℕ) (i : Ipc) → IsSound i → IsSound (refuse fd (record i { fds = fd ∷ i.fds }))
unfolding refuse close_fd
refuse-IsSound fd i s = record {
  counted = s.counted;
  bounded = s.bounded;
  waiting = s.waiting;
  opened = ground (arith, s.opened);
}

-- With room for one more client.
added-IsSound :
    (fd : ℕ) (i : Ipc)
    → IsSound i
    → ltb_ℤ i.nr_clients (pos max_clients) ≡ true
    → IsSound (record i {
      fds = fd ∷ i.fds;
      clients = record { fd = fd; buf = [] } ∷ i.clients;
      nr_clients = i.nr_clients +ℤ pos 1;
    })
unfolding ltb_ℤ behind
added-IsSound fd i s room = record {
  counted = grind (int_laws, s.counted);
  bounded = ground (arith, s.counted);
  waiting = ((omega arith, refl), s.waiting);
  opened = ap (λ l. fd ∷ l) s.opened;
}

connect-IsSound :
    (fd : ℕ) (c : Connection) (i : Ipc)
    → IsSound i
    → IsSound (connect fd c (record i { fds = fd ∷ i.fds }))
unfolding connect buf_of
connect-IsSound fd c i s =
    let refused : IsSound (refuse fd (record i { fds = fd ∷ i.fds })) = refuse-IsSound fd i s in
    elim (Bool-cases (ltb_ℤ i.nr_clients (pos max_clients))) [
      | inr full ↦ rw full (refuse-IsSound fd i s)
      | inl room ↦ rw room (
          if_elim IsSound (not c.closes_on_exec) (λ _. refused)
            (λ _.
              if_elim IsSound (not c.does_not_block) (λ _. refused)
                (λ _.
                  if_elim IsSound (not c.is_allocated) (λ _. refused)
                    (λ _.
                      if_elim IsSound (not c.is_watched)
                        (λ _.
                          client_destroy-IsSound fd _ [] (added-IsSound fd i s room) (ground arith))
                        (λ _. added-IsSound fd i s room)))))
    ]

socket_connection-IsSound : (c : Connection) (i : Ipc) → IsSound i → IsSound (socket_connection c i)
unfolding socket_connection
socket_connection-IsSound c i s = elim (Option-cases c.client_fd) [
  | inl e ↦ rw e (if_elim IsSound c.hung_up (λ _. s) (λ _. s))
  | inr (fd, e) ↦ rw e (if_elim IsSound c.hung_up (λ _. s) (λ _. connect-IsSound fd c i s))
]

-- What a client that is not destroyed has in its buffer.
abbrev pub Waits : Verdict → Type 0
Waits (waits buf) = IsWaiting buf
Waits (ends text) = Unit {0}

length-take : (n : ℕ) (xs : List ℕ) → length (take n xs) ≤ n
length-take zero xs = ground arith
length-take (suc n) [] = ground arith
length-take (suc n) (x ∷ xs) = omega (arith, length-take n xs)

module _ (hit : Server → Hit) (output_name : ℕ → List ℕ) where
  module _ (is_dirty : ℕ → Bool) where
    take_line-Waits :
        (buf : List ℕ) (s : Session)
        → length buf ≤ max_request
        → Waits (take_line hit is_dirty output_name buf s).0
    unfolding take_line
    take_line-Waits buf s room = elim (Option-cases (behind 10 buf)) [
      | inr (rest, e) ↦ rw (e, take_line) tt
      | inl e ↦
          rw (e, take_line)
            (if_elim (λ (r : Verdict × Session). Waits r.0) (length buf == max_request) (λ _. tt)
              (λ partial. (ground (arith, partial), e)))
    ]

    pub receive-Waits :
        (input : Input) (buf : List ℕ) (s : Session)
        → IsWaiting buf
        → Waits (receive hit is_dirty output_name input buf s).0
    unfolding receive read_bytes
    receive-Waits hangup buf s w = tt
    receive-Waits nothing_yet buf s w = w
    receive-Waits failed buf s w = tt
    receive-Waits (bytes there) buf s w =
        read_bytes-Waits (take (max_request - length buf) there) (length-take _ there)
      where
        read_bytes-Waits :
            (got : List ℕ)
            → length got ≤ max_request - length buf
            → Waits (read_bytes hit is_dirty output_name got buf s).0
        read_bytes-Waits [] h = tt
        read_bytes-Waits (b ∷ bs) h =
            take_line-Waits (buf ++ b ∷ bs) s (omega (arith, length-append buf (b ∷ bs), w.0))

  settle_client-IsSound :
      (fd : ℕ) (r : Verdict × Session) (i : Ipc) (buf : List ℕ)
      → IsSound i
      → buf_of fd i.clients ≡ some buf
      → Waits r.0
      → IsSound (settle_client fd r i)
  unfolding settle_client respond
  settle_client-IsSound fd (waits new, t) i buf s found w = record {
    counted = cc (s.counted, length-set_buf fd new i.clients);
    bounded = omega (arith, s.bounded, length-set_buf fd new i.clients);
    waiting = set_buf-All IsWaiting fd new i.clients w s.waiting;
    opened = cc (s.opened, set_buf_fds fd new i.clients);
  }
  settle_client-IsSound fd (ends none, t) i buf s found w =
      client_destroy-IsSound fd (record i { session = t }) buf
        (record {
          counted = s.counted;
          bounded = s.bounded;
          waiting = s.waiting;
          opened = s.opened;
        })
        found
  settle_client-IsSound fd (ends (some text), t) i buf s found w =
      client_destroy-IsSound fd (record i { session = t; sent = (fd, text) ∷ i.sent }) buf
        (record {
          counted = s.counted;
          bounded = s.bounded;
          waiting = s.waiting;
          opened = s.opened;
        })
        found

  client_readable-IsSound :
      (fd : ℕ) (input : Input) (is_dirty : ℕ → Bool) (i : Ipc)
      → IsSound i
      → IsSound (client_readable hit output_name fd input is_dirty i)
  unfolding client_readable
  client_readable-IsSound fd input is_dirty i s = elim (Option-cases (buf_of fd i.clients)) [
    | inl e ↦ rw (e, client_readable) s
    | inr (buf, e) ↦
        rw (e, client_readable)
          (settle_client-IsSound fd _ i buf s e (
            receive-Waits is_dirty input buf i.session
              (buf_of-All IsWaiting fd buf i.clients s.waiting e)))
  ]

  -- Whatever comes to the socket, in whatever order, the counter says how many clients there are,
  -- at most eight; the open descriptors are theirs; and none of them has a full buffer or a
  -- complete line that is not answered. This is so in the beginning.
  pub run-IsSound : (es : List Event) (i : Ipc) → IsSound i → IsSound (run hit output_name es i)
  unfolding run handle
  run-IsSound [] i s = s
  run-IsSound (e ∷ es) i s = run-IsSound es _ (handle-IsSound e)
    where
      handle-IsSound : (e : Event) → IsSound (handle hit output_name e i)
      handle-IsSound (connection c) = socket_connection-IsSound c i s
      handle-IsSound (readable fd input is_dirty) = client_readable-IsSound fd input is_dirty i s
      handle-IsSound (elsewhere change) = record {
        counted = s.counted;
        bounded = s.bounded;
        waiting = s.waiting;
        opened = s.opened;
      }

abbrev Closed : Ipc → Type 0
Closed t = (t.clients ≡ []) × (t.fds ≡ []) × (t.nr_clients ≡ pos 0)

destroy_each_closes :
    (cs : List Client) (i : Ipc)
    → i.clients ≡ cs
    → i.fds ≡ fds_of cs
    → i.nr_clients ≡ pos (length cs)
    → Closed (destroy_each cs i)
unfolding destroy_each client_destroy drop_client close_fd
destroy_each_closes [] i present opened counted = (present, opened, counted)
destroy_each_closes (c ∷ cs) i present opened counted =
    destroy_each_closes cs (client_destroy c.fd i) (ground (arith, present))
      (ground (arith, opened)) (grind (int_laws, counted))

-- Once the socket is closed, there is no client, no descriptor of one is open, and none is counted.
-- The bookkeeping of the clients was sound.
pub fini_clients-IsSound : (i : Ipc) → IsSound i → Closed (fini_clients i)
unfolding fini_clients
fini_clients-IsSound i s = destroy_each_closes i.clients i refl s.opened s.counted
