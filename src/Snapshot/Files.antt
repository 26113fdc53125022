-- ===== src/Snapshot/Files.antt =====
-- snapshot.rs: the settings, and the file of a snapshot, `save` and `load`. Serialisation is an
-- argument. A disk holds the file and the temporary file beside it.
use cex_matching_engine.Prelude.{
  refl, ℕ, ◌<◌, ◌≡◌, Bool, true, false, not, Option, none, some, [], ◌∷◌, nat_eqb, ltb,
  if◌then◌else◌, arith,
}
use cex_matching_engine.Prelude.HashMap.{or_else}
use cex_matching_engine.Prelude.Text.{Text, parse_u64}

abbrev pub current_version : ℕ
current_version = 1

pub record Snapshot {ℓ} (T : Type ℓ) : Type ℓ where
  pub version : ℕ
  pub last_id : Text
  pub state : T

pub record SnapshotConfig : Type 0 where
  pub path : Text
  pub every : ℕ

abbrev pub positive : Option ℕ → Option ℕ
positive none = none
positive (some n) = if ltb 0 n then some n else none

abbrev pub nonempty : Option Text → Option Text
nonempty none = none
nonempty (some []) = none
nonempty (some (c ∷ s)) = some (c ∷ s)

abbrev pub parsed : Option Text → Option ℕ
parsed none = none
parsed (some v) = parse_u64 v

-- `SnapshotConfig::from_env`; the environment gives the two variables.
unfoldable pub from_env : Option Text → Option Text → ℕ → Option SnapshotConfig
unfolding parse_u64
from_env path every default_every = elim (nonempty path) [
  | none ↦ none
  | some p ↦ some (record { path = p; every = or_else default_every (positive (parsed every)) })
]

-- Snapshotting is on exactly where a path is given, and never at an interval of 0, as long as the
-- default is none.
from_env-every :
    (path every : Option Text) (default_every : ℕ) (c : SnapshotConfig)
    → 0 < default_every
    → from_env path every default_every ≡ some c
    → 0 < c.every
unfolding from_env
from_env-every path every default_every c h e = ground arith

pub record Disk : Type 0 where
  pub tmp : Option Text
  pub file : Option Text

-- Where a save fails or the process dies, with what the temporary file then holds.
pub data Fault : Type 0 where
  no_fault : Fault
  at_directory at_create : Fault
  at_write at_sync : Text → Fault
  at_rename : Fault

-- The steps after the temporary file is created, with the bytes to write.
unfoldable pub write_bytes : Fault → Option Text → Disk → Bool × Disk
write_bytes fault none disk = (false, record disk { tmp = some [] })
write_bytes no_fault (some bytes) disk = (true, record { tmp = none; file = some bytes })
write_bytes (at_write torn) (some bytes) disk = (false, record disk { tmp = some torn })
write_bytes (at_sync torn) (some bytes) disk = (false, record disk { tmp = some torn })
write_bytes at_rename (some bytes) disk = (false, record disk { tmp = some bytes })
write_bytes at_directory (some bytes) disk = (false, disk)
write_bytes at_create (some bytes) disk = (false, disk)

unfoldable pub save {ℓ} :
    {T : Type ℓ} → (Snapshot T → Option Text) → Fault → Text → T → Disk → Bool × Disk
unfolding write_bytes
save encode at_directory last_id state disk = (false, disk)
save encode at_create last_id state disk = (false, disk)
save encode fault last_id state disk =
    write_bytes fault
      (encode (record { version = current_version; last_id = last_id; state = state })) disk

unfoldable pub load {ℓ} : {T : Type ℓ} → (Text → Option (Snapshot T)) → Disk → Option (Snapshot T)
load decode disk = elim disk.file [
  | none ↦ none
  | some bytes ↦ elim (decode bytes) [
    | none ↦ none
    | some snapshot ↦ if not (nat_eqb snapshot.version current_version) then none else some snapshot
  ]
]

-- What serialisation promises: what it writes is read back.
abbrev pub RoundTrips {ℓ} :
    {T : Type ℓ} → (Snapshot T → Option Text) → (Text → Option (Snapshot T)) → Type ℓ
RoundTrips {T} encode decode =
    (snapshot : Snapshot T) (bytes : Text)
    → encode snapshot ≡ some bytes
    → decode bytes ≡ some snapshot

write_bytes-load {ℓ} :
    {T : Type ℓ} (decode : Text → Option (Snapshot T)) (fault : Fault) (o : Option Text)
    (disk : Disk) (last : Text × T)
    → let snapshot : Snapshot T = record {
      version = current_version;
      last_id = last.0;
      state = last.1;
    } in
      ((bytes : Text) → o ≡ some bytes → decode bytes ≡ some snapshot)
      → load decode (write_bytes fault o disk).1
        ≡ (if (write_bytes fault o disk).0 then some snapshot else load decode disk)
unfolding load write_bytes
write_bytes-load decode fault none disk last h = refl
write_bytes-load decode no_fault (some bytes) disk last h = rw (h bytes refl, load) refl
write_bytes-load decode (at_write torn) (some bytes) disk last h = refl
write_bytes-load decode (at_sync torn) (some bytes) disk last h = refl
write_bytes-load decode at_rename (some bytes) disk last h = refl
write_bytes-load decode at_directory (some bytes) disk last h = refl
write_bytes-load decode at_create (some bytes) disk last h = refl

-- Whatever step of a save fails, a load afterwards finds the new snapshot where the save succeeded,
-- and else exactly what a load found before.
pub save-load {ℓ} :
    {T : Type ℓ} (encode : Snapshot T → Option Text) (decode : Text → Option (Snapshot T))
    (fault : Fault) (last_id : Text) (state : T) (disk : Disk)
    → RoundTrips encode decode
    → let (ok, disk') = save encode fault last_id state disk in
      load decode disk' ≡ (
        if ok
        then some (record { version = current_version; last_id = last_id; state = state })
        else load decode disk)
unfolding save
save-load encode decode at_directory last_id state disk trips = refl
save-load encode decode at_create last_id state disk trips = refl
save-load encode decode no_fault last_id state disk trips =
    write_bytes-load decode no_fault _ disk (last_id, state) (trips _)
save-load encode decode (at_write torn) last_id state disk trips =
    write_bytes-load decode (at_write torn) _ disk (last_id, state) (trips _)
save-load encode decode (at_sync torn) last_id state disk trips =
    write_bytes-load decode (at_sync torn) _ disk (last_id, state) (trips _)
save-load encode decode at_rename last_id state disk trips =
    write_bytes-load decode at_rename _ disk (last_id, state) (trips _)
