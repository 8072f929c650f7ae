-- ===== src/Agent/Role.antt =====
-- `RoleStore` and `PeerStore::validate_file` of src/lib.rs. What the system does is an argument: what
-- reading returns, the metadata of the file, and the first error of the calls that write, all of them
-- before the rename.
mod Tests
use localscale.Prelude.{
  ℕ, ◌/◌, ◌%◌, ◌≡◌, ◌⊎◌, ◌↔◌, inl, inr, refl, ap, sym, ◌∙◌, Bool, true, false, not, ◌&&◌, ◌||◌,
  Bool-cases, Option, none, some, [], ◌∷◌, ◌++◌, arith, Bytes, codes, bytes_eq, bytes_eq_iff,
  bytes_eq_self, strip_prefix, ◌==◌, ==_iff, ==_self, if◌then◌else◌, Result, ok, err, ◌>>=◌, ◌>>◌,
}
use localscale.Codec.Trim.{trim, strip_all, strip_one}
use localscale.Transport.Action.{IoError, not_found}

pub record Metadata : Type 0 where
  pub is_file : Bool
  pub uid : ℕ
  pub mode : ℕ

-- `mode & 0o044 != 0`
abbrev pub is_readable_by_others : ℕ → Bool
is_readable_by_others mode = mode / 4 % 2 == 1 || mode / 32 % 2 == 1

-- All three refusals are of the kind PermissionDenied.
unfoldable pub validate_file : ℕ → Metadata → Result IoError (Unit {0})
validate_file effective_uid m =
    if not m.is_file
    then err IoError.other
    else if not (m.uid == effective_uid) && not (effective_uid == 0)
    then err IoError.other
    else if is_readable_by_others m.mode
    then err IoError.other
    else ok tt

-- The role with the contents of its file.
pub record RoleStore : Type 0 where
  pub role : Option Bytes
  pub file : Option Bytes

abbrev pub is_role : Bytes → Bool
is_role v = bytes_eq v (codes "host") || bytes_eq v (codes "cliente")

-- The role that `open` reads; a file that is there is validated behind it.
unfoldable pub open_role : Result IoError Bytes → ℕ → Metadata → Result IoError (Option Bytes)
open_role (ok value) effective_uid m =
    if not (is_role (trim value))
    then err IoError.other
    else (do validate_file effective_uid m; ok (some (trim value)))
open_role (err not_found) effective_uid m = ok none
open_role (err e) effective_uid m = err e

abbrev same_role : Option Bytes → Bytes → Bool
same_role none v = false
same_role (some r) v = bytes_eq r v

abbrev write_role : Option IoError → Bytes → RoleStore → Result IoError Bool × RoleStore
write_role none v s = (ok true, record { role = some v; file = some (v ++ codes "\n") })
write_role (some e) v s = (err e, s)

pub set_role : Option IoError → Bytes → RoleStore → Result IoError Bool × RoleStore
set_role fault v s =
    if not (is_role v)
    then (err IoError.other, s)
    else if same_role s.role v
    then (ok false, s)
    else write_role fault v s

trim_host : trim (codes "host\n") ≡ codes "host"
unfolding trim strip_all strip_one strip_prefix
trim_host = refl

trim_cliente : trim (codes "cliente\n") ≡ codes "cliente"
unfolding trim strip_all strip_one strip_prefix
trim_cliente = refl

trim_role : (v : Bytes) → is_role v ≡ true → trim (v ++ codes "\n") ≡ v
trim_role v h = elim (Bool-cases (bytes_eq v (codes "host"))) [
  | inl is_host ↦ rw ((bytes_eq_iff v (codes "host")).0 is_host) trim_host
  | inr other ↦ rw ((bytes_eq_iff v (codes "cliente")).0 (ground arith)) trim_cliente
]

-- Setting the name of a role that is not stored yet, with writes that succeed, stores it, and it is read
-- back from the file by a user whom the metadata of the file suit.
pub open_role-set_role :
    (v body : Bytes) (s : RoleStore) (effective_uid : ℕ) (m : Metadata)
    → is_role v ≡ true
    → same_role s.role v ≡ false
    → validate_file effective_uid m ≡ ok tt
    → (set_role none v s).1.file ≡ some body
    → ((set_role none v s).0 ≡ ok true)
      × ((set_role none v s).1.role ≡ some v)
      × (open_role (ok body) effective_uid m ≡ ok (some v))
unfolding set_role open_role
open_role-set_role v body s effective_uid m named fresh suits written =
    let same : v ++ codes "\n" ≡ body = ground arith in
    (rw (named, fresh), rw (named, fresh), rw (← same, trim_role v named, named, suits))

-- A file is refused exactly if it is not a regular file, if it belongs to another user and the agent
-- does not run as root, or if the group or others may read it.
pub validate_file_iff :
    (effective_uid : ℕ) (m : Metadata)
    → (validate_file effective_uid m ≡ ok tt) ↔ (
        (m.is_file ≡ true)
        × ((m.uid ≡ effective_uid) ⊎ (effective_uid ≡ 0))
        × (is_readable_by_others m.mode ≡ false))
unfolding validate_file
validate_file_iff effective_uid m = (
  λ h. (
    ground arith,
    elim (Bool-cases (m.uid == effective_uid)) [
      | inl own ↦ inl ((==_iff m.uid effective_uid).0 own)
      | inr other ↦ inr (ground arith)
    ],
    ground arith,
  ),
  λ h. elim h.1 [
    | inl own ↦ rw (h.0, own, ==_self effective_uid, h.2)
    | inr root ↦ rw (h.0, root, h.2) (ground arith)
  ],
)
