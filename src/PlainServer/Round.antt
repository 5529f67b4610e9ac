-- ===== src/PlainServer/Round.antt =====
-- One packet in `HandleConnection` of version 1: what is done on it, and what is left of the connection.
use atxp.Common.{
  ◌≡◌, refl, ap, sym, ◌∙◌, Option, none, some, List, [], ◌∷◌, ◌++◌, append_assoc, append-nil,
}
use atxp.Common.Table.{lookup}
use atxp.Wire.{Bytes}
use atxp.Conn.{World, write_bytes}
use atxp.Message.{Box, Message, ResponseCode, error_code, unauthorized}
use atxp.Packet.{Decoded, decoded, refused, panicked, deserialize}
use atxp.Response.{send_response}
use atxp.Server.{Handler}
use atxp.PlainServer.{
  Control, continues, returns, panics, Act, handed, responded, Server, check_auth, respond,
  call_handler, admit_message, handle_message,
}
use atxp.PlainServer.Spec.{
  check_auth-IsAccepted, check_auth-IsRejected, Serves, malformed, crashed, rejected, unrouted,
  handled, replies, faults_after, replies-append, faults_after-append,
}

module _ {O D : Type 0} where
  -- From `w` to `w'` the acts `one` came to those of before, and their responses were written.
  pub record Advances (w : World) (acts : List (Act O D)) (acts' : List (Act O D)) (w' : World)
      (one : List (Act O D)) : Type 0 where
    pub grown : acts' ≡ acts ++ one
    pub written : w'.conn.trace ≡ w.conn.trace ++ replies w.conn.write_faults one
    pub left : w'.conn.write_faults ≡ faults_after w.conn.write_faults one

  pub Advances-trans :
      (w w1 w2 : World) (acts acts1 acts2 one more : List (Act O D))
      → Advances w acts acts1 w1 one
      → Advances w1 acts1 acts2 w2 more
      → Advances w acts acts2 w2 (one ++ more)
  Advances-trans w w1 w2 acts acts1 acts2 one more a b = record {
    grown = b.grown ∙ ap (λ t. t ++ more) a.grown ∙ append_assoc acts one more;
    written =
        b.written
        ∙ ap (λ t. t ++ replies w1.conn.write_faults more) a.written
        ∙ append_assoc w.conn.trace (replies w.conn.write_faults one)
            (replies w1.conn.write_faults more)
        ∙ ap (λ f. w.conn.trace ++ (replies w.conn.write_faults one ++ replies f more)) a.left
        ∙ ap (λ t. w.conn.trace ++ t) (sym (replies-append w.conn.write_faults one more));
    left =
        b.left
        ∙ ap (λ f. faults_after f more) a.left
        ∙ sym (faults_after-append w.conn.write_faults one more);
  }

  -- Nothing was done.
  pub Advances-none :
      (w w' : World) (acts : List (Act O D))
      → w'.conn.trace ≡ w.conn.trace
      → w'.conn.write_faults ≡ w.conn.write_faults
      → Advances w acts acts w' []
  Advances-none w w' acts t f = record {
    grown = sym (append-nil acts);
    written = t ∙ sym (append-nil w.conn.trace);
    left = f;
  }

  pub respond-Advances :
      (next : Control) (code : ResponseCode) (acts : List (Act O D)) (w : World)
      → Advances w acts
          (respond next code acts w).1
          (respond next code acts w).2
          (responded code ∷ [])
  unfolding send_response write_bytes
  respond-Advances next code acts w = record { grown = refl; written = refl; left = refl }

  handed-Advances :
      (msg : Message O) (auth_data : D) (code : ResponseCode) (acts : List (Act O D)) (w : World)
      → let q = respond continues code (acts ++ handed msg auth_data ∷ []) w in
        Advances w acts q.1 q.2 (handed msg auth_data ∷ responded code ∷ [])
  unfolding send_response write_bytes
  handed-Advances msg auth_data code acts w = record {
    grown = append_assoc acts (handed msg auth_data ∷ []) (responded code ∷ []);
    written = refl;
    left = refl;
  }

  pub respond-incoming :
      (next : Control) (code : ResponseCode) (acts : List (Act O D)) (w : World)
      → (respond next code acts w).2.conn.incoming ≡ w.conn.incoming
  unfolding send_response write_bytes
  respond-incoming next code acts w = refl

module _ {O D : Type 0} ⦃box : Box O⦄ (blank : Message O) (no_auth : D) (s : Server O D) where
  -- What the acts `one` make of the packets behind the first one, or of all of them.
  abbrev pub Settles : Bytes → List Bytes → Control → List (Act O D) → Type 0
  Settles p ps continues one =
      (next : Control) (rest : List (Act O D))
      → Serves blank no_auth s ps next rest
      → Serves blank no_auth s (p ∷ ps) next (one ++ rest)
  Settles p ps returns one = Serves blank no_auth s (p ∷ ps) returns one
  Settles p ps panics one = Serves blank no_auth s (p ∷ ps) panics one

  pub record Handles (p : Bytes) (ps : List Bytes) (acts : List (Act O D)) (w : World)
      (q : Control × List (Act O D) × World) : Type 0 where
    pub one : List (Act O D)
    pub advances : Advances w acts q.1 q.2 one
    pub kept : q.2.conn.incoming ≡ w.conn.incoming
    pub settles : Settles p ps q.0 one

  pub handle_message-Handles :
      (d : Decoded (Message O)) (p : Bytes) (ps : List Bytes) (acts : List (Act O D)) (w : World)
      → deserialize p (some blank) ≡ d
      → Handles p ps acts w (handle_message no_auth s d acts w)
  unfolding handle_message admit_message call_handler
  handle_message-Handles (refused e) p ps acts w h = record {
    one = responded error_code ∷ [];
    advances = respond-Advances returns error_code acts w;
    kept = respond-incoming returns error_code acts w;
    settles = malformed p ps e h;
  }
  handle_message-Handles panicked p ps acts w h = record {
    one = [];
    advances = Advances-none w w acts refl refl;
    kept = refl;
    settles = crashed p ps h;
  }
  handle_message-Handles (decoded msg) p ps acts w h =
      by_auth (check_auth no_auth s.auth_fn msg.auth) refl
    where
      by_handler :
          (auth_data : D) (f : Option (Handler O D))
          → check_auth no_auth s.auth_fn msg.auth ≡ some auth_data
          → lookup msg.type s.handlers ≡ f
          → Handles p ps acts w (call_handler f msg auth_data acts w)
      by_handler auth_data none a e = record {
        one = responded error_code ∷ [];
        advances = respond-Advances continues error_code acts w;
        kept = respond-incoming continues error_code acts w;
        settles = λ next rest r.
            unrouted p ps next rest msg auth_data h
              ((check_auth-IsAccepted no_auth s.auth_fn msg.auth auth_data).0 a) e r;
      }
      by_handler auth_data (some handler) a e = record {
        one = handed msg auth_data ∷ responded (handler msg auth_data) ∷ [];
        advances = handed-Advances msg auth_data (handler msg auth_data) acts w;
        kept =
            respond-incoming continues (handler msg auth_data) (acts ++ handed msg auth_data ∷ [])
              w;
        settles = λ next rest r.
            handled p ps next rest msg auth_data handler h
              ((check_auth-IsAccepted no_auth s.auth_fn msg.auth auth_data).0 a) e r;
      }

      by_auth :
          (a : Option D)
          → check_auth no_auth s.auth_fn msg.auth ≡ a
          → Handles p ps acts w (admit_message a s msg acts w)
      by_auth none a = record {
        one = responded unauthorized ∷ [];
        advances = respond-Advances returns unauthorized acts w;
        kept = respond-incoming returns unauthorized acts w;
        settles = rejected p ps msg h (check_auth-IsRejected no_auth s.auth_fn msg.auth a);
      }
      by_auth (some auth_data) a = by_handler auth_data (lookup msg.type s.handlers) a refl
