-- ===== src/Ipc/Running.antt =====
-- What holds of every request holds of the socket over time.
use hikari_sakura.Prelude.{
  ℕ, ◌-◌, ◌<◌, Bool, false, ◌==◌, if_elim, List, [], ◌∷◌, ◌++◌, Option, none, some, length, take,
  All, ◌≡◌, refl, ap, ◌∙◌, sym, subst, arith, ◌⊎◌, Option-cases, inl, inr,
}
use hikari_sakura.Stacking.State.{Server}
use hikari_sakura.Stacking.Pointer.{Hit, Sees}
use hikari_sakura.Ipc.Strings.{codes, behind}
use hikari_sakura.Ipc.Requests.{Session, Answer, size_of_out, dispatch}
use hikari_sakura.Ipc.Socket.{
  max_request, Ipc, Input, Verdict, waits, ends, take_line, line_of, read_bytes, receive, hangup,
  nothing_yet, failed, bytes, buf_of, respond, settle_client, Connection, Event, connection,
  readable, elsewhere, client_readable, handle, run, client_destroy, socket_connection, connect,
  refuse,
}
use hikari_sakura.Ipc.Serving.{IsValid, dispatch-IsValid, dispatch_gated, length-dispatch}

abbrev too_long : List ℕ
too_long = codes "error request too long\n"

abbrev text_of : Verdict → Option (List ℕ)
text_of (waits buf) = none
text_of (ends text) = text

-- Of a property of texts and one of sessions, that they hold of whatever is answered.
abbrev AnswersWith : (List ℕ → Type 0) → (Session → Type 0) → Answer → Type 0
AnswersWith IsText IsOk a = IsText a.1 × IsOk a.0

abbrev Served : (List ℕ → Type 0) → (Session → Type 0) → Option (List ℕ) → Session → Type 0
Served IsText IsOk none s = IsOk s
Served IsText IsOk (some text) s = IsText text × IsOk s

-- What is to be shown of an event.
abbrev Respects : (Session → Type 0) → Event → Type 0
Respects IsOk (connection c) = Unit {0}
Respects IsOk (readable fd input is_dirty) = Unit {0}
Respects IsOk (elsewhere change) = (s : Session) → IsOk s → IsOk (change s)

socket_connection_keeps :
    (c : Connection) (i : Ipc)
    → ((socket_connection c i).session ≡ i.session) × ((socket_connection c i).sent ≡ i.sent)
unfolding socket_connection connect refuse client_destroy
socket_connection_keeps c i = (ground arith, ground arith)

module _ (hit : Server → Hit) (output_name : ℕ → List ℕ) (IsText : List ℕ → Type 0)
    (IsOk : Session → Type 0) (long : IsText too_long)
    (serves : (is_dirty : ℕ → Bool) (line : List ℕ) (s : Session)
      → IsOk s
      → AnswersWith IsText IsOk (dispatch hit is_dirty output_name line s)) where
  abbrev IsServed : Verdict × Session → Type 0
  IsServed r = Served IsText IsOk (text_of r.0) r.1

  take_line-IsServed :
      (is_dirty : ℕ → Bool) (buf : List ℕ) (s : Session)
      → IsOk s
      → IsServed (take_line hit is_dirty output_name buf s)
  unfolding take_line
  take_line-IsServed is_dirty buf s ok = elim (Option-cases (behind 10 buf)) [
    | inr (rest, e) ↦ rw (e, take_line) (serves is_dirty (line_of buf) s ok)
    | inl e ↦
        rw (e, take_line) (if_elim IsServed (length buf == max_request) (λ _. (long, ok)) (λ _. ok))
  ]

  read_bytes-IsServed :
      (is_dirty : ℕ → Bool) (got buf : List ℕ) (s : Session)
      → IsOk s
      → IsServed (read_bytes hit is_dirty output_name got buf s)
  unfolding read_bytes
  read_bytes-IsServed is_dirty [] buf s ok = ok
  read_bytes-IsServed is_dirty (b ∷ bs) buf s ok = take_line-IsServed is_dirty (buf ++ b ∷ bs) s ok

  receive-IsServed :
      (is_dirty : ℕ → Bool) (input : Input) (buf : List ℕ) (s : Session)
      → IsOk s
      → IsServed (receive hit is_dirty output_name input buf s)
  unfolding receive
  receive-IsServed is_dirty hangup buf s ok = ok
  receive-IsServed is_dirty nothing_yet buf s ok = ok
  receive-IsServed is_dirty failed buf s ok = ok
  receive-IsServed is_dirty (bytes there) buf s ok =
      read_bytes-IsServed is_dirty (take (max_request - length buf) there) buf s ok

  -- The state of the session, and all that was ever sent.
  abbrev pub Holds : Ipc → Type 0
  Holds i = IsOk i.session × All (λ (p : ℕ × List ℕ). IsText p.1) i.sent

  settle_client-Holds :
      (fd : ℕ) (r : Verdict × Session) (i : Ipc)
      → IsServed r
      → Holds i
      → Holds (settle_client fd r i)
  unfolding settle_client respond client_destroy
  settle_client-Holds fd (waits buf, t) i ok h = (ok, h.1)
  settle_client-Holds fd (ends none, t) i ok h = (ok, h.1)
  settle_client-Holds fd (ends (some text), t) i ok h = (ok.1, (ok.0, h.1))

  handle-Holds :
      (e : Event) (i : Ipc) → Respects IsOk e → Holds i → Holds (handle hit output_name e i)
  unfolding handle
  handle-Holds (connection c) i r h =
      let kept = socket_connection_keeps c i in
      (subst IsOk (sym kept.0) h.0, subst (All (λ (p : ℕ × List ℕ). IsText p.1)) (sym kept.1) h.1)
  handle-Holds (readable fd input is_dirty) i r h = elim (Option-cases (buf_of fd i.clients)) [
    | inl e ↦ rw (e, client_readable) h
    | inr (buf, e) ↦
        rw (e, client_readable)
          (settle_client-Holds fd _ i (receive-IsServed is_dirty input buf i.session h.0) h)
  ]
  handle-Holds (elsewhere change) i r h = (r i.session h.0, h.1)

  pub run-Holds :
      (es : List Event) (i : Ipc)
      → All (Respects IsOk) es
      → Holds i
      → Holds (run hit output_name es i)
  unfolding run
  run-Holds [] i r h = h
  run-Holds (e ∷ es) i r h = run-Holds es _ r.1 (handle-Holds e i r.0 h)

All-Unit : (xs : List (ℕ × List ℕ)) → All (λ p. Unit {0}) xs
All-Unit [] = tt
All-Unit (x ∷ xs) = (tt, All-Unit xs)

All-Respects : (es : List Event) → All (Respects (λ s. Unit {0})) es
All-Respects [] = tt
All-Respects (connection c ∷ es) = (tt, All-Respects es)
All-Respects (readable fd input is_dirty ∷ es) = (tt, All-Respects es)
All-Respects (elsewhere change ∷ es) = ((λ s ok. tt), All-Respects es)

-- Whatever clients connect and send, the linkage of the views stays in order and lock mode is not
-- normal mode, if the rest of the program keeps it so. The refocus meets visible views only.
pub run-IsValid :
    (hit : Server → Hit) (output_name : ℕ → List ℕ) (es : List Event) (i : Ipc)
    → Sees hit
    → All (Respects IsValid) es
    → IsValid i.session
    → IsValid (run hit output_name es i).session
run-IsValid hit output_name es i sees r v =
    (run-Holds hit output_name (λ text. Unit) IsValid tt
      (λ is_dirty line s ok. (tt, dispatch-IsValid hit sees is_dirty output_name line s ok)) es i r
      (v, All-Unit i.sent)).0

abbrev IsRefusal : List ℕ → Type 0
IsRefusal text = (text ≡ codes "error compositor busy\n") ⊎ (text ≡ too_long)

-- Outside of normal mode, so on a locked screen, whatever clients connect and send, none of it
-- changes the session, and all that they are ever told is that the compositor is busy or that the
-- request is too long. The rest of the program leaves the session as it is, and nothing has been
-- sent before.
pub run_gated :
    (hit : Server → Hit) (output_name : ℕ → List ℕ) (es : List Event) (i : Ipc)
    → i.session.in_normal_mode ≡ false
    → i.sent ≡ []
    → All (Respects (λ t. t ≡ i.session)) es
    → ((run hit output_name es i).session ≡ i.session)
      × All (λ (p : ℕ × List ℕ). IsRefusal p.1) (run hit output_name es i).sent
run_gated hit output_name es i gated fresh r =
    run-Holds hit output_name IsRefusal (λ t. t ≡ i.session) (inr refl)
      (λ is_dirty line s ok.
        let answered = dispatch_gated hit is_dirty output_name line s (ground (arith, ok, gated)) in
        (inl (ap (λ (a : Answer). a.1) answered), ap (λ (a : Answer). a.0) answered ∙ ok))
      es i r (refl, subst (All (λ (p : ℕ × List ℕ). IsRefusal p.1)) (sym fresh) tt)

-- Every text that is ever sent is shorter than 512 bytes. None has been sent before.
run_fits :
    (hit : Server → Hit) (output_name : ℕ → List ℕ) (es : List Event) (i : Ipc)
    → i.sent ≡ []
    → All (λ (p : ℕ × List ℕ). length p.1 < size_of_out) (run hit output_name es i).sent
run_fits hit output_name es i fresh =
    (run-Holds hit output_name (λ text. length text < size_of_out) (λ s. Unit {0}) (omega arith)
      (λ is_dirty line s ok. (length-dispatch hit is_dirty output_name line s, tt)) es i
      (All-Respects es)
      (tt, subst (All (λ (p : ℕ × List ℕ). length p.1 < size_of_out)) (sym fresh) tt)).1
