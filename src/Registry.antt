-- ===== src/Registry.antt =====
-- mt_v2.go: the registry of message types. A call holds the lock from its first to its last access,
-- so each is one step on the map. Go iterates over a map in an order that it chooses: an iteration
-- takes the entries in a list that holds the same ones.
pub mod Laws
pub mod View
use Prim.Native.Nat.{ℕ}
use Prim.Native.String.{String}
use atxp.Common.{Bool, true, false, Option, none, some, List, [], ◌∷◌, eq_bytes, if◌then◌else◌}
use atxp.Common.Int.{ℤ, negsuc}
use atxp.Common.Table.{lookup, insert}
use atxp.Wire.{Bytes}
use atxp.Message.{Mt, url, document, notification}

pub record MtV2 : Type 0 where
  pub name : Bytes
  pub code : Mt
  pub description : String

-- mtRegistry.m
abbrev pub Registry : Type 0
Registry = List (Mt × MtV2)

-- NewMT: the result and the registry after the call.
unfoldable pub new_mt : MtV2 → Registry → Bool × Registry
new_mt mt m = elim (lookup mt.code m) [ some old ↦ (false, m) | none ↦ (true, insert mt.code mt m) ]

-- LookupMT
unfoldable pub lookup_mt : Mt → Registry → Option MtV2
lookup_mt code m = lookup code m

-- mtRegistry.m at the start: the three types of the protocol.
abbrev pub initial_registry : Registry
initial_registry =
    (
      url,
      record {
        name = b'U' ∷ b'R' ∷ b'L' ∷ [];
        code = url;
        description =
            "Used for transmitting URLs across the network, it can be used to register a webhook.";
      },
    )
    ∷ (
      document,
      record {
        name = b'D' ∷ b'O' ∷ b'C' ∷ b'U' ∷ b'M' ∷ b'E' ∷ b'N' ∷ b'T' ∷ [];
        code = document;
        description = "Used for transferring files. Can be used for storage servers.";
      },
    )
    ∷ (
      notification,
      record {
        name =
            b'N' ∷ b'O' ∷ b'T' ∷ b'I' ∷ b'F' ∷ b'I' ∷ b'C' ∷ b'A' ∷ b'T' ∷ b'I' ∷ b'O' ∷ b'N' ∷ [];
        code = notification;
        description =
            "Used to transmit JSON or events. Can be used in an event-driven architecture.";
      },
    )
    ∷ []

-- "UNKNOWN"
abbrev pub unknown_name : Bytes
unknown_name = b'U' ∷ b'N' ∷ b'K' ∷ b'N' ∷ b'O' ∷ b'W' ∷ b'N' ∷ []

unfoldable pub type_to_string_v2 : Mt → Registry → Bytes
type_to_string_v2 code m = elim (lookup_mt code m) [ some mt ↦ mt.name | none ↦ unknown_name ]

-- The loop of StringToTypeV2 over the entries in the order of the iteration.
unfoldable pub string_to_type_v2 : Bytes → Registry → Mt × Bool
string_to_type_v2 name [] = (negsuc 0, false)
string_to_type_v2 name ((code, mt) ∷ rest) =
    let later = string_to_type_v2 name rest in if eq_bytes mt.name name then (code, true) else later
