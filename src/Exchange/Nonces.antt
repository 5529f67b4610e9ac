-- ===== src/Exchange/Nonces.antt =====
-- All that a client of version 2 puts out from `NewClientV2` on.
use atxp.Common.{◌≡◌, refl, sym, ◌∙◌, inl, inr, List, [], arith}
use atxp.Errors.{ok, Result-cases}
use atxp.Wire.{Bytes}
use atxp.Conn.{World, arm_read, read_full, wrap_err, map_err, lift, pure, ◌>>=◌}
use atxp.Conn.Trace.{Makes, bind_inv, wrapped_inv, trace_rules}
use atxp.Crypto.{Crypto, Cipher, gcm_cipher}
use atxp.Message.{Box}
use atxp.Frame.Output.{Emits, Emits-none, Emits-trans}
use atxp.Frame.Silent.{bind-entropy, IsSilent, written-IsSilent}
use atxp.Endpoint.{
  V2, OptionV2, new_v2, client_handshake, handshake_header_size, check_header, failed,
}
use atxp.Endpoint.Handshake.{client_handshake_inv, read_header}
use atxp.Endpoint.Output.{cipher_from_salt-gcm_cipher}
use atxp.Client.{ClientV2, new_client_v2}
use atxp.Client.Start.{fresh_client}
use atxp.Exchange.Peers.{Call, numbered}
use atxp.Exchange.Dialogue.{call_all}
use atxp.Exchange.Wire.{envelopes, call_all-Emits}

module _ (cr : Crypto) where
  client_handshake-IsSilent : (v : V2) → Makes IsSilent (client_handshake cr v)
  unfolding client_handshake
  client_handshake-IsSilent v = search trace_rules depth 12

  client_handshake-entropy : (v : V2) (w : World) → (client_handshake cr v w).1.entropy ≡ w.entropy
  unfolding client_handshake arm_read read_full
  client_handshake-entropy v =
      let arm = wrap_err "atxp.ClientHandshake" (arm_read v.timeout) in
      let fetch = map_err (failed "atxp.ClientHandshake") (read_full handshake_header_size) in
      bind-entropy arm (λ _. read_header cr v) (λ w. refl)
        (λ _.
          bind-entropy fetch (λ header. lift (check_header cr v header)) (λ w. refl)
            (λ header w. refl))

  module _ (password username : Bytes) (opts : List OptionV2) where
    new_client_v2-IsSilent : Makes IsSilent (new_client_v2 cr password username opts)
    unfolding new_client_v2
    new_client_v2-IsSilent = search (trace_rules, client_handshake-IsSilent) depth 8

    new_client_v2-entropy :
        (w : World) → (new_client_v2 cr password username opts w).1.entropy ≡ w.entropy
    unfolding new_client_v2
    new_client_v2-entropy w = elim (Result-cases (new_v2 password opts)) [
      | inl (v, made) ↦ rw made (ground (arith, client_handshake-entropy v w))
      | inr (e, fails) ↦ rw fails refl
    ]

    new_client_v2-gcm_cipher :
        (k : ClientV2) (w : World)
        → (new_client_v2 cr password username opts w).0 ≡ ok k
        → (a : cr.Aead) × (k.cipher ≡ gcm_cipher cr a)
    unfolding new_client_v2
    new_client_v2-gcm_cipher k w h =
        let shake = λ (v : V2). wrap_err "atxp.NewClientV2" (client_handshake cr v) in
        let build = λ (v : V2) (c : Cipher). pure (fresh_client c username v) in
        let (v, _, h1) = bind_inv (lift (new_v2 password opts)) (λ v. shake v >>= build v) w h in
        let (c, e, h2) = bind_inv (shake v) (build v) w h1 in
        let (salt, _, _, made, _) =
          client_handshake_inv cr v w c (wrapped_inv "atxp.NewClientV2" _ e) in
        let (a, gcm) = cipher_from_salt-gcm_cipher cr v salt c made in
        let same : c ≡ k.cipher = cc h2 in (a, sym same ∙ gcm)

    module _ {O D : Type 0} (box : Box O) where
      -- A client that `NewClientV2` has made makes calls one after the other. Whatever comes in and
      -- whichever calls fail, its cipher is AES-GCM under some key, and this is all that it has put out
      -- since before `NewClientV2`: for each of its messages, in their order, nothing or its frame,
      -- whole or cut. The frame is the length, a nonce and what GCM seals of the message under that
      -- nonce and the key, and it fits the client's cap. All the nonces are different stretches of the
      -- random source, each behind the one before, so no random byte is used twice.
      pub new_client_v2-Emits :
          (calls : List (Call D)) (k : ClientV2) (w : World)
          → (new_client_v2 cr password username opts w).0 ≡ ok k
          → (a : cr.Aead) × (k.cipher ≡ gcm_cipher cr a)
            × Emits cr a k.max_frame_size w
                (envelopes ⦃box = box⦄ (numbered box calls k))
                (call_all box calls k (new_client_v2 cr password username opts w).1).2
      new_client_v2-Emits calls k w h =
          let (a, gcm) = new_client_v2-gcm_cipher k w h in
          let limit = k.max_frame_size in
          let w1 = (new_client_v2 cr password username opts w).1 in
          let (quiet, t, all) = new_client_v2-IsSilent.at w in
          let nothing =
            Emits-none cr a limit w w1 quiet t (written-IsSilent quiet all)
              (new_client_v2-entropy w) in
          (
            a,
            gcm,
            Emits-trans cr a limit w w1 (call_all box calls k w1).2 [] _ nothing
                (call_all-Emits box cr a calls k w1 gcm),
          )
