-- ===== src/Envelope/Canonical.antt =====
-- What `DeserializeV2` accepts is the documented layout, and no other plaintext.
use atxp.Common.{ℕ, ◌<◌, ◌^◌, ◌≡◌, some, [], ◌==◌, All, arith, ==_iff, append-nil}
use atxp.Common.Int.{pos}
use atxp.Wire.{Bytes, IsByte, append_uint32, append_field}
use atxp.Wire.Fields.{after_byte, after_guard, after_uint32, after_uint64, after_field, after_end}
use atxp.Message.{ResponseCode}
use atxp.Envelope.{Fields, kind_message, kind_response}
use atxp.Envelope.Spec.{take_message, take_response}
use atxp.Envelope.Layout.{layout, layout_response, Fits}

pub take_message_inv :
    (bs : Bytes) (f : Fields) (rest : Bytes)
    → All IsByte bs
    → take_message bs ≡ some (f, rest)
    → (bs ≡ layout f) × Fits f
unfolding take_message layout
take_message_inv bs f rest w h = after_byte bs _ w h λ kind b1 p1 w1 h1.
    after_guard b1 (kind == kind_message) _ h1 λ k h2. after_uint64 b1 _ w1 h2 λ seq b2 p2 l2 w2 h3.
      after_uint32 b2 _ w2 h3 λ code b3 p3 l3 w3 h4.
        after_field b3 _ w3 h4 λ payload b4 p4 l4 w4 h5.
          after_field b4 _ w4 h5 λ username b5 p5 l5 w5 h6.
            after_field b5 _ w5 h6 λ filename b6 p6 l6 w6 h7. after_end b6 _ h7 λ p7 h8.
              ground (arith, ==_iff kind kind_message, append-nil (append_field [] filename))

pub take_response_inv :
    (bs : Bytes) (code : ResponseCode) (seq : ℕ) (rest : Bytes)
    → All IsByte bs
    → take_response bs ≡ some ((code, seq), rest)
    → (c : ℕ) × (code ≡ pos c) × (bs ≡ layout_response c seq) × (c < 2 ^ 32) × (seq < 2 ^ 64)
unfolding take_response layout_response
take_response_inv bs code seq rest w h = after_byte bs _ w h λ kind b1 p1 w1 h1.
    after_guard b1 (kind == kind_response) _ h1 λ k h2.
      after_uint64 b1 _ w1 h2 λ seq b2 p2 l2 w2 h3. after_uint32 b2 _ w2 h3 λ c b3 p3 l3 w3 h4.
        after_end b3 _ h4 λ p4 h5. (
          c,
          ground arith,
          ground (arith, ==_iff kind kind_response, append-nil (append_uint32 [] c)),
          l3,
          ground arith,
        )
