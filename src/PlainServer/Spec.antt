-- ===== src/PlainServer/Spec.antt =====
-- What a connection of the server of version 1 comes to, told by its packets: the stream is cut after
-- each pair of newlines, and the packets are answered one by one.
use atxp.Common.{
  true, false, arith, ◌∙◌, ◌↔◌, sym, ℕ, ◌≡◌, refl, ap, Option, none, some, List, [], ◌∷◌, ◌++◌,
}
use atxp.Common.Table.{lookup}
use atxp.Errors.{Error}
use atxp.Wire.{Bytes}
use atxp.Conn.{Call, write, next_fault, sent}
use atxp.Message.{Auth, Box, Message, ResponseCode, error_code, unauthorized}
use atxp.Packet.{decoded, refused, panicked, deserialize}
use atxp.Response.{response_text}
use atxp.Server.{Handler}
use atxp.PlainServer.{
  AuthHandler, Control, returns, panics, Act, handed, responded, Server, check_auth,
}

module _ {D : Type 0} where
  -- The authorization function accepts the username and the password, with the data; without a
  -- function the data is the zero value.
  abbrev pub IsAccepted : D → Option (AuthHandler D) → Auth → D → Type 0
  IsAccepted no_auth none auth auth_data = auth_data ≡ no_auth
  IsAccepted no_auth (some auth_fn) auth auth_data =
      auth_fn auth.username auth.password ≡ (true, auth_data)

  abbrev pub IsRejected : Option (AuthHandler D) → Auth → Type 0
  IsRejected none auth = ⊥
  IsRejected (some auth_fn) auth = (auth_fn auth.username auth.password).0 ≡ false

  pub check_auth-IsAccepted :
      (no_auth : D) (f : Option (AuthHandler D)) (auth : Auth) (auth_data : D)
      → (check_auth no_auth f auth ≡ some auth_data) ↔ IsAccepted no_auth f auth auth_data
  unfolding check_auth
  check_auth-IsAccepted no_auth none auth auth_data = (λ h. cc h, λ h. ap some (sym h))
  check_auth-IsAccepted no_auth (some auth_fn) auth auth_data = (λ h. ground arith, λ h. rw h refl)

  pub check_auth-IsRejected :
      (no_auth : D) (f : Option (AuthHandler D)) (auth : Auth)
      → check_auth no_auth f auth ≡ none
      → IsRejected f auth
  unfolding check_auth
  check_auth-IsRejected no_auth none auth h = cc h
  check_auth-IsRejected no_auth (some auth_fn) auth h = ground arith

  pub IsAccepted-unique :
      (no_auth : D) (f : Option (AuthHandler D)) (auth : Auth) (d d' : D)
      → IsAccepted no_auth f auth d
      → IsAccepted no_auth f auth d'
      → d ≡ d'
  IsAccepted-unique no_auth none auth d d' h h' = h ∙ sym h'
  IsAccepted-unique no_auth (some auth_fn) auth d d' h h' = cc

  pub IsAccepted-IsRejected :
      (no_auth : D) (f : Option (AuthHandler D)) (auth : Auth) (d : D)
      → IsAccepted no_auth f auth d
      → IsRejected f auth
      → ⊥
  IsAccepted-IsRejected no_auth none auth d h r = r
  IsAccepted-IsRejected no_auth (some auth_fn) auth d h r = cc (sym (ap (λ p. p.0) h) ∙ r)

module _ {O D : Type 0} ⦃box : Box O⦄ (blank : Message O) (no_auth : D) (s : Server O D) where
  -- What the server does on packets, and how it ends.
  pub data Serves : List Bytes → Control → List (Act O D) → Type 0 where
    finished : Serves [] returns []
    malformed :
        (p : Bytes) (ps : List Bytes) (e : Error)
        → deserialize p (some blank) ≡ refused e
        → Serves (p ∷ ps) returns (responded error_code ∷ [])
    crashed :
        (p : Bytes) (ps : List Bytes)
        → deserialize p (some blank) ≡ panicked
        → Serves (p ∷ ps) panics []
    rejected :
        (p : Bytes) (ps : List Bytes) (msg : Message O)
        → deserialize p (some blank) ≡ decoded msg
        → IsRejected s.auth_fn msg.auth
        → Serves (p ∷ ps) returns (responded unauthorized ∷ [])
    unrouted :
        (p : Bytes) (ps : List Bytes) (next : Control) (acts : List (Act O D)) (msg : Message O)
        (auth_data : D)
        → deserialize p (some blank) ≡ decoded msg
        → IsAccepted no_auth s.auth_fn msg.auth auth_data
        → lookup msg.type s.handlers ≡ none
        → Serves ps next acts
        → Serves (p ∷ ps) next (responded error_code ∷ acts)
    handled :
        (p : Bytes) (ps : List Bytes) (next : Control) (acts : List (Act O D)) (msg : Message O)
        (auth_data : D) (handler : Handler O D)
        → deserialize p (some blank) ≡ decoded msg
        → IsAccepted no_auth s.auth_fn msg.auth auth_data
        → lookup msg.type s.handlers ≡ some handler
        → Serves ps next acts
        → Serves (p ∷ ps) next (handed msg auth_data ∷ responded (handler msg auth_data) ∷ acts)

module _ {O D : Type 0} where
  -- The calls that the responses come to on a connection with these write faults.
  abbrev pub replies : List (Option (ℕ × Error)) → List (Act O D) → List Call
  replies faults [] = []
  replies faults (handed msg auth_data ∷ acts) = replies faults acts
  replies faults (responded code ∷ acts) =
      write (sent (next_fault faults).0 (response_text code)) ∷ replies (next_fault faults).1 acts

  -- The write faults behind the responses.
  abbrev pub faults_after : List (Option (ℕ × Error)) → List (Act O D) → List (Option (ℕ × Error))
  faults_after faults [] = faults
  faults_after faults (handed msg auth_data ∷ acts) = faults_after faults acts
  faults_after faults (responded code ∷ acts) = faults_after (next_fault faults).1 acts

  pub replies-append :
      (faults : List (Option (ℕ × Error))) (xs ys : List (Act O D))
      → replies faults (xs ++ ys) ≡ replies faults xs ++ replies (faults_after faults xs) ys
  replies-append faults [] ys = refl
  replies-append faults (handed msg auth_data ∷ xs) ys = replies-append faults xs ys
  replies-append faults (responded code ∷ xs) ys =
      ap (λ t. write (sent (next_fault faults).0 (response_text code)) ∷ t)
        (replies-append (next_fault faults).1 xs ys)

  pub faults_after-append :
      (faults : List (Option (ℕ × Error))) (xs ys : List (Act O D))
      → faults_after faults (xs ++ ys) ≡ faults_after (faults_after faults xs) ys
  faults_after-append faults [] ys = refl
  faults_after-append faults (handed msg auth_data ∷ xs) ys = faults_after-append faults xs ys
  faults_after-append faults (responded code ∷ xs) ys =
      faults_after-append (next_fault faults).1 xs ys

  abbrev pub codes : List (Act O D) → List ResponseCode
  codes [] = []
  codes (handed msg auth_data ∷ acts) = codes acts
  codes (responded code ∷ acts) = code ∷ codes acts

module _ {O D : Type 0} (no_auth : D) (s : Server O D) where
  -- Each message that went to a handler was authorized, with the data that the handler got, and the
  -- next thing done is to respond with the code of the handler that is registered for its type.
  abbrev pub Orderly : List (Act O D) → Type 0
  Orderly [] = Unit
  Orderly (responded code ∷ acts) = Orderly acts
  Orderly (handed msg auth_data ∷ []) = ⊥
  Orderly (handed msg auth_data ∷ handed msg' auth_data' ∷ acts) = ⊥
  Orderly (handed msg auth_data ∷ responded code ∷ acts) =
      IsAccepted no_auth s.auth_fn msg.auth auth_data
      × ((handler : Handler O D) × (lookup msg.type s.handlers ≡ some handler)
          × (code ≡ handler msg auth_data))
      × Orderly acts

  pub Serves-Orderly :
      ⦃box : Box O⦄ (blank : Message O) (ps : List Bytes) (next : Control) (acts : List (Act O D))
      → Serves blank no_auth s ps next acts
      → Orderly acts
  Serves-Orderly blank _ _ _ finished = tt
  Serves-Orderly blank _ _ _ (malformed p ps e h) = tt
  Serves-Orderly blank _ _ _ (crashed p ps h) = tt
  Serves-Orderly blank _ _ _ (rejected p ps msg h a) = tt
  Serves-Orderly blank _ _ _ (unrouted p ps next acts msg auth_data h a f r) =
      Serves-Orderly blank ps next acts r
  Serves-Orderly blank _ _ _ (handled p ps next acts msg auth_data handler h a f r) =
      (a, (handler, f, refl), Serves-Orderly blank ps next acts r)
