-- ===== src/Server/Spec.antt =====
-- What a connection of the server may come to, as a transition system: one constructor for each way
-- in which a frame is answered. docs/protocol.md describes the sequence numbers.
use atxp.Common.{
  ℕ, ◌≤◌, ◌<◌, ◌≡◌, refl, ap, sym, true, Option, none, some, List, [], ◌∷◌, ◌++◌, arith, append-nil,
  All, All-append,
}
use atxp.Message.{Message, ResponseCode, error_code, unauthorized}
use atxp.Client.{next_seq}
use atxp.Server.{
  Next, go_on, stop, Entry, dispatched, replied, Session, Handler, AuthHandlerV2, ServerV2,
  fresh_session, find_handler, authorize,
}

module _ {O D : Type 0} where
  -- The session behind the reply to a frame.
  abbrev pub answered : ℕ → ResponseCode → Session O D → Session O D
  answered recv code st = record {
    recv_seq = recv;
    send_seq = next_seq st.send_seq;
    history = st.history ++ replied (next_seq st.send_seq) code ∷ [];
  }

  -- The session when a frame has gone to a handler.
  abbrev pub noted : ℕ → Message O → D → Session O D → Session O D
  noted seq msg auth st = record st { history = st.history ++ dispatched seq msg auth ∷ [] }

module _ {O D : Type 0} (no_auth : D) (s : ServerV2 O D) where
  pub data Reaches : Next → Session O D → Type 0 where
    start : Reaches go_on fresh_session
    handled :
        {st : Session O D} (seq : ℕ) (msg : Message O) (auth : D) (handler : Handler O D)
        → Reaches go_on st
        → st.recv_seq < seq
        → authorize no_auth s.auth_fn msg ≡ some auth
        → find_handler s msg.type ≡ some handler
        → Reaches go_on (answered seq (handler msg auth) (noted seq msg auth st))
    unrouted :
        {st : Session O D} (seq : ℕ) (msg : Message O) (auth : D)
        → Reaches go_on st
        → st.recv_seq < seq
        → authorize no_auth s.auth_fn msg ≡ some auth
        → find_handler s msg.type ≡ none
        → Reaches go_on (answered seq error_code st)
    refused :
        {st : Session O D} (seq : ℕ) (msg : Message O)
        → Reaches go_on st
        → st.recv_seq < seq
        → authorize no_auth s.auth_fn msg ≡ none
        → Reaches stop (answered seq unauthorized st)
    replayed :
        {st : Session O D} (seq : ℕ)
        → Reaches go_on st
        → seq ≤ st.recv_seq
        → Reaches stop (answered st.recv_seq error_code st)

module _ {O D : Type 0} where
  -- The sequence numbers of the frames that went to a handler, and of the replies.
  abbrev pub dispatched_seqs : List (Entry O D) → List ℕ
  dispatched_seqs [] = []
  dispatched_seqs (dispatched seq msg auth ∷ es) = seq ∷ dispatched_seqs es
  dispatched_seqs (replied seq code ∷ es) = dispatched_seqs es

  abbrev pub reply_seqs : List (Entry O D) → List ℕ
  reply_seqs [] = []
  reply_seqs (dispatched seq msg auth ∷ es) = reply_seqs es
  reply_seqs (replied seq code ∷ es) = seq ∷ reply_seqs es

  dispatched_seqs-append :
      (xs ys : List (Entry O D))
      → dispatched_seqs (xs ++ ys) ≡ dispatched_seqs xs ++ dispatched_seqs ys
  dispatched_seqs-append [] ys = refl
  dispatched_seqs-append (dispatched seq msg auth ∷ xs) ys =
      ap (λ t. seq ∷ t) (dispatched_seqs-append xs ys)
  dispatched_seqs-append (replied seq code ∷ xs) ys = dispatched_seqs-append xs ys

  reply_seqs-append :
      (xs ys : List (Entry O D)) → reply_seqs (xs ++ ys) ≡ reply_seqs xs ++ reply_seqs ys
  reply_seqs-append [] ys = refl
  reply_seqs-append (dispatched seq msg auth ∷ xs) ys = reply_seqs-append xs ys
  reply_seqs-append (replied seq code ∷ xs) ys = ap (λ t. seq ∷ t) (reply_seqs-append xs ys)

-- `xs` rises strictly from above `lo`, and ends at `hi` or below.
abbrev pub Rises : ℕ → List ℕ → ℕ → Type 0
Rises lo [] hi = lo ≤ hi
Rises lo (x ∷ xs) hi = (lo < x) × Rises x xs hi

-- `xs` counts on from `lo`, one by one modulo 2^64, and ends at `hi`.
abbrev pub Counts : ℕ → List ℕ → ℕ → Type 0
Counts lo [] hi = lo ≡ hi
Counts lo (x ∷ xs) hi = (x ≡ next_seq lo) × Counts x xs hi

Rises-append :
    (lo : ℕ) (xs : List ℕ) (hi y : ℕ) → Rises lo xs hi → hi < y → Rises lo (xs ++ y ∷ []) y
Rises-append lo [] hi y h lt = omega arith
Rises-append lo (x ∷ xs) hi y h lt = (h.0, Rises-append x xs hi y h.1 lt)

Rises-mono : (lo : ℕ) (xs : List ℕ) (hi hi' : ℕ) → Rises lo xs hi → hi ≤ hi' → Rises lo xs hi'
Rises-mono lo [] hi hi' h le = omega arith
Rises-mono lo (x ∷ xs) hi hi' h le = (h.0, Rises-mono x xs hi hi' h.1 le)

Counts-append :
    (lo : ℕ) (xs : List ℕ) (hi : ℕ)
    → Counts lo xs hi
    → Counts lo (xs ++ next_seq hi ∷ []) (next_seq hi)
Counts-append lo [] hi h = (ap next_seq (sym h), refl)
Counts-append lo (x ∷ xs) hi h = (h.0, Counts-append x xs hi h.1)

module _ {O D : Type 0} where
  abbrev pub Numbered : Session O D → Type 0
  Numbered st =
      Rises 0 (dispatched_seqs st.history) st.recv_seq
      × Counts 0 (reply_seqs st.history) st.send_seq

  pub Numbered-answered :
      (st : Session O D) (recv : ℕ) (code : ResponseCode)
      → Numbered st
      → st.recv_seq ≤ recv
      → Numbered (answered recv code st)
  Numbered-answered st recv code (r, c) le = (
    rw dispatched_seqs-append
        (rw append-nil (Rises-mono 0 (dispatched_seqs st.history) st.recv_seq recv r le)),
    rw reply_seqs-append (Counts-append 0 (reply_seqs st.history) st.send_seq c),
  )

  pub Numbered-handled :
      (st : Session O D) (seq : ℕ) (msg : Message O) (auth : D) (code : ResponseCode)
      → Numbered st
      → st.recv_seq < seq
      → Numbered (answered seq code (noted seq msg auth st))
  Numbered-handled st seq msg auth code (r, c) lt = (
    simp (dispatched_seqs-append, append-nil)
        (Rises-append 0 (dispatched_seqs st.history) st.recv_seq seq r lt),
    simp (reply_seqs-append, append-nil) (Counts-append 0 (reply_seqs st.history) st.send_seq c),
  )

module _ {O D : Type 0} (no_auth : D) where
  -- The authorization function admits the user of the message with the data; without a function the
  -- data is the zero value.
  abbrev pub IsAuthorized : Option (AuthHandlerV2 D) → Message O → D → Type 0
  IsAuthorized none msg auth = auth ≡ no_auth
  IsAuthorized (some auth_fn) msg auth = auth_fn msg.auth.username ≡ (true, auth)

  pub authorize_inv :
      (f : Option (AuthHandlerV2 D)) (msg : Message O) (auth : D)
      → authorize no_auth f msg ≡ some auth
      → IsAuthorized f msg auth
  unfolding authorize
  authorize_inv none msg auth h = cc
  authorize_inv (some auth_fn) msg auth h = ground arith

module _ {O D : Type 0} (no_auth : D) (s : ServerV2 O D) where
  -- On every connection, at every moment: the sequence numbers of the frames that went to a handler
  -- rise strictly from above 0 to at most the receive counter, and the replies are numbered 1, 2, 3
  -- and so on (modulo 2^64) up to the send counter.
  pub Reaches-seqs :
      (next : Next) (st : Session O D)
      → Reaches no_auth s next st
      → Rises 0 (dispatched_seqs st.history) st.recv_seq
        × Counts 0 (reply_seqs st.history) st.send_seq
  Reaches-seqs next st start = (omega arith, refl)
  Reaches-seqs next st (handled {st = u} seq msg auth handler r lt a f) =
      Numbered-handled u seq msg auth (handler msg auth) (Reaches-seqs go_on u r) lt
  Reaches-seqs next st (unrouted {st = u} seq msg auth r lt a f) =
      Numbered-answered u seq error_code (Reaches-seqs go_on u r) (omega arith)
  Reaches-seqs next st (refused {st = u} seq msg r lt a) =
      Numbered-answered u seq unauthorized (Reaches-seqs go_on u r) (omega arith)
  Reaches-seqs next st (replayed {st = u} seq r le) =
      Numbered-answered u u.recv_seq error_code (Reaches-seqs go_on u r) (omega arith)

  -- An entry of a connection's history is sound: a dispatched frame was authorized, with the data
  -- that its handler got, and a handler was registered for its type.
  abbrev pub Permitted : Entry O D → Type 0
  Permitted (dispatched seq msg auth) =
      IsAuthorized no_auth s.auth_fn msg auth
      × ((handler : Handler O D) × (find_handler s msg.type ≡ some handler))
  Permitted (replied seq code) = Unit

  pub Permitted-answered :
      (st : Session O D) (recv : ℕ) (code : ResponseCode)
      → All Permitted st.history
      → All Permitted (answered recv code st).history
  Permitted-answered st recv code h = All-append Permitted st.history _ h (tt, tt)

  -- No frame goes to a handler that was not authorized and routed.
  pub Reaches-Permitted :
      (next : Next) (st : Session O D) → Reaches no_auth s next st → All Permitted st.history
  Reaches-Permitted next st start = tt
  Reaches-Permitted next st (handled {st = u} seq msg auth handler r lt a f) =
      Permitted-answered (noted seq msg auth u) seq (handler msg auth) (
        All-append Permitted u.history _ (Reaches-Permitted go_on u r)
          ((authorize_inv no_auth s.auth_fn msg auth a, (handler, f)), tt))
  Reaches-Permitted next st (unrouted {st = u} seq msg auth r lt a f) =
      Permitted-answered u seq error_code (Reaches-Permitted go_on u r)
  Reaches-Permitted next st (refused {st = u} seq msg r lt a) =
      Permitted-answered u seq unauthorized (Reaches-Permitted go_on u r)
  Reaches-Permitted next st (replayed {st = u} seq r le) =
      Permitted-answered u u.recv_seq error_code (Reaches-Permitted go_on u r)
