-- ===== src/Relationship/Extract/Tests.antt =====
-- The properties of the extraction at properties with one reference.
use sentinel_keyvault.Common.{◌↔◌, Text, codes, Has}
use sentinel_keyvault.Platform.Json.{Fields, str, obj, end, field}
use sentinel_keyvault.Relationship.Extract.{extract}
use sentinel_keyvault.Relationship.Extract.Occurrences.{Occurs}
use sentinel_keyvault.Relationship.Extract.Candidates.{targets, Refers, IsDict}
use sentinel_keyvault.Relationship.Extract.Exact.{extract_exact}

abbrev target : Text
target = codes "/subscriptions/s/providers/p"

abbrev properties : Fields
properties = field (codes "subnet") (str (codes " /Subscriptions/s/providers/p")) end

extract_exact_example :
    ((t : Text)
      → Has t (targets (extract properties))
        ↔ ((s : Text) × Occurs s (obj properties) 0 × Refers s t))
    × IsDict (extract properties)
extract_exact_example = extract_exact properties
