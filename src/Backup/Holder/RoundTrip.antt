-- ===== src/Backup/Holder/RoundTrip.antt =====
-- Reading a lease holder back gives the backup's name and uid.
use Prim.Native.String.{◌++◌}
use Prim.Native.Char.{Char, code}
use text.Mathlib.TextLemmas.{nil-append, cons-append}
use percona_postgresql_opera.Prelude.{◌≡◌, refl, String, Bool, false, [], ◌∷◌, arith, nat_eq, ◌||◌}
use percona_postgresql_opera.Prelude.Text.{split}
use percona_postgresql_opera.Types.Meta.{ObjectMeta}
use percona_postgresql_opera.Backup.Holder.{backup_lease_holder, parse_backup_lease_holder}

-- The text has the bar in it.
unfoldable pub has_bar : String → Bool
has_bar String.[] = false
has_bar (String.◌∷◌ ch s) = nat_eq (code ch) b'|' || has_bar s

no_bar_head :
    (ch : Char) (t : String)
    → has_bar (String.◌∷◌ ch t) ≡ false
    → (nat_eq (code ch) b'|' ≡ false) × (has_bar t ≡ false)
unfolding has_bar
no_bar_head ch t h = ground arith

split-no_bar : (t : String) → has_bar t ≡ false → split b'|' t ≡ t ∷ []
unfolding split
split-no_bar String.[] h = refl
split-no_bar (String.◌∷◌ ch t) h =
    let (this, rest) = no_bar_head ch t h in rw (this, split-no_bar t rest)

-- Up to the first bar, splitting takes one part off.
split-append : (s t : String) → has_bar s ≡ false → split b'|' (s ++ ("|" ++ t)) ≡ s ∷ split b'|' t
unfolding split
split-append String.[] t h = rw (nil-append, cons-append) (rw nil-append refl)
split-append (String.◌∷◌ ch s) t h =
    let (this, rest) = no_bar_head ch s h in rw cons-append (rw (this, split-append s t rest) refl)

-- A holder made of a name with no bar and a uid with no bar reads back as that name and uid.
pub parse_backup_lease_holder-backup_lease_holder :
    (m : ObjectMeta)
    → has_bar m.name ≡ false
    → has_bar m.uid ≡ false
    → parse_backup_lease_holder (backup_lease_holder m) ≡ (m.name, m.uid)
unfolding parse_backup_lease_holder backup_lease_holder
parse_backup_lease_holder-backup_lease_holder m n u =
    rw (split-append m.name m.uid n, split-no_bar m.uid u)
