-- ===== src/Tests/Registries.antt =====
-- Runs of the registry, and instances of its laws on the three types that it starts with.
use atxp.Common.{◌≡◌, refl, sym, ap, true, false, some, [], ◌∷◌, inl, inr, arith}
use atxp.Common.Int.{eq_int, pos, negsuc}
use atxp.Common.Table.{lookup, insert, In, IsUnique}
use atxp.Message.{Mt, url, document}
use atxp.Registry.{MtV2, new_mt, lookup_mt, initial_registry, type_to_string_v2, string_to_type_v2}
use atxp.Registry.View.{view, Orders, register_comm}
use atxp.Registry.Laws.{Iterates, string_to_type_v2-type_to_string_v2}

abbrev invoice : MtV2
invoice = record { name = 73 ∷ []; code = pos 9; description = "invoices" }

-- A type with the code of another is refused.
refused_run : new_mt (record invoice { code = url }) initial_registry ≡ (false, initial_registry)
unfolding new_mt lookup_mt lookup insert
refused_run = refl

register_comm_example :
    Orders
      (eq_int (pos 9) (pos 10))
      invoice
      (record invoice { code = pos 10 })
      (view initial_registry)
register_comm_example =
    register_comm invoice (record invoice { code = pos 10 }) (view initial_registry)

initial-IsUnique : IsUnique initial_registry
unfolding lookup
initial-IsUnique = (refl, (refl, (refl, tt)))

abbrev document_entry : MtV2
document_entry = record {
  name = 68 ∷ 79 ∷ 67 ∷ 85 ∷ 77 ∷ 69 ∷ 78 ∷ 84 ∷ [];
  code = document;
  description = "Used for transferring files. Can be used for storage servers.";
}

document_known : lookup_mt document initial_registry ≡ some document_entry
unfolding lookup_mt lookup
document_known = refl

as_stored : Iterates initial_registry initial_registry
as_stored = (λ e i. i, λ e i. i)

document_single :
    (e : Mt × MtV2) → In e initial_registry → e.1.name ≡ document_entry.name → e.0 ≡ document
document_single e (inl h) same = ground (arith, ap (λ x. x.1.name) h)
document_single e (inr (inl h)) same = ap (λ x. x.0) (sym h)
document_single e (inr (inr (inl h))) same = ground (arith, ap (λ x. x.1.name) h)
document_single e (inr (inr (inr i))) same = absurd i

string_to_type_v2-type_to_string_v2_example :
    string_to_type_v2 (type_to_string_v2 document initial_registry) initial_registry
    ≡ (document, true)
string_to_type_v2-type_to_string_v2_example =
    string_to_type_v2-type_to_string_v2 initial_registry initial_registry document document_entry
      as_stored document_known document_single

document_resolved : string_to_type_v2 (document_entry.name) initial_registry ≡ (document, true)
unfolding string_to_type_v2
document_resolved = refl

absent_run : string_to_type_v2 (88 ∷ []) initial_registry ≡ (negsuc 0, false)
unfolding string_to_type_v2
absent_run = refl
