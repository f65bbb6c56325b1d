-- ===== src/Disclosure/Store.antt =====
-- business/domain/disclosure/stores/disclosuredb/disclosuredb.go: the witness table, as the list of
-- its rows in the order of `ORDER BY count ASC`.
use sion_backup.Prelude.{List, [], ◌∷◌, ltb, ◌==◌, if◌then◌else◌}
use sion_backup.Prelude.Time.{Time}
use sion_backup.Plan.Store.{rfc3339}
use sion_backup.Disclosure.{Witness, Keep}

abbrev pub row : Witness → Time → Keep
row w seen = record { witness = record w { at = rfc3339 w.at }; seen = rfc3339 seen }

-- Remember: a head with the count of another row is not written.
unfoldable pub remember : Witness → Time → List Keep → List Keep
remember w seen [] = row w seen ∷ []
remember w seen (k ∷ ks) =
    let rest = remember w seen ks in
    if w.count == k.witness.count
    then k ∷ ks
    else if ltb w.count k.witness.count
    then row w seen ∷ k ∷ ks
    else k ∷ rest
