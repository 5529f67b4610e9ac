-- ===== src/Tests/Peers.antt =====
-- Runs of the client and the options of an endpoint, and instances of their laws.
use atxp.Common.{◌≡◌, refl, false, List, [], ◌∷◌, length, ◌==◌, All}
use atxp.Common.Int.{pos, negsuc}
use atxp.Errors.{ok}
use atxp.Message.{document}
use atxp.Frame.{max_frame_size_v2, default_io_timeout}
use atxp.Endpoint.{V2, OptionV2, new_v2, with_iterations, with_max_frame_size, apply_options}
use atxp.Endpoint.Options.{IsValid, IsOption, iterations_option, cap_option, new_v2-IsValid}
use atxp.Client.{ClientV2, next_seq, send}
use atxp.Client.Counters.{Counted, send-Counted}
use atxp.Tests.Data.{box_of_option, toy_cipher, world_of}

-- A client that has sent five messages and has got five responses.
abbrev toy_client : ClientV2
toy_client = record {
  cipher = toy_cipher;
  username = 98 ∷ 111 ∷ 98 ∷ [];
  max_frame_size = max_frame_size_v2;
  send_seq = 5;
  recv_seq = 5;
}

send-Counted_example :
    Counted toy_client
      (next_seq 5)
      (send box_of_option toy_client document (104 ∷ 105 ∷ []) (102 ∷ []) (world_of []))
send-Counted_example =
    send-Counted box_of_option toy_client document (104 ∷ 105 ∷ []) (102 ∷ []) (world_of [])

-- An iteration count that is not positive and a cap that is too low are ignored.
abbrev toy_options : List OptionV2
toy_options =
    with_iterations (negsuc 2) ∷ with_max_frame_size (pos 64) ∷ with_max_frame_size (pos 5) ∷ []

toy_options-IsOption : All IsOption toy_options
toy_options-IsOption =
    (iterations_option (negsuc 2), (cap_option (pos 64), (cap_option (pos 5), tt)))

abbrev made_v2 : V2
made_v2 = record {
  password = 112 ∷ [];
  iterations = pos 600_000;
  timeout = default_io_timeout;
  max_frame_size = pos 64;
}

made : new_v2 (112 ∷ []) toy_options ≡ ok made_v2
unfolding new_v2 apply_options with_iterations with_max_frame_size
made = refl

new_v2-IsValid_example :
    IsValid made_v2 × (made_v2.password ≡ 112 ∷ []) × ((length (made_v2.password) == 0) ≡ false)
new_v2-IsValid_example = new_v2-IsValid (112 ∷ []) toy_options made_v2 toy_options-IsOption made
