-- ===== src/Agent/VirtualIp.antt =====
-- `LocalVirtualIpStore` of src/host_registry.rs: the host's own address, in a file of one line. What the
-- system does is an argument: what reading returns, and the first error of the calls that write, all of
-- them before the rename.
use localscale.Prelude.{
  ◌≡◌, ◌≢◌, arith, refl, Option, none, some, [], ◌∷◌, Bytes, All, if◌then◌else◌, Result, ok, err,
}
use localscale.Codec.Trim.{trim, trim_visible, IsVisible}
use localscale.Protocol.Syntax.{is_empty}
use localscale.Transport.Action.{IoError, not_found}

-- The store with the contents of its file.
pub record LocalVirtualIpStore : Type 0 where
  pub value : Option Bytes
  pub file : Option Bytes

abbrev non_empty : Bytes → Option Bytes
non_empty v = if is_empty v then none else some v

-- The `value` that `open` reads.
unfoldable pub open_value : Result IoError Bytes → Result IoError (Option Bytes)
open_value (ok body) = ok (non_empty (trim body))
open_value (err not_found) = ok none
open_value (err e) = err e

abbrev pub write_value :
    Option IoError → Bytes → LocalVirtualIpStore → Result IoError (Unit {0}) × LocalVirtualIpStore
write_value none v s = (ok tt, record { value = some v; file = some v })
write_value (some e) v s = (err e, s)

unfoldable pub set_value :
    Option IoError → Bytes → LocalVirtualIpStore → Result IoError (Unit {0}) × LocalVirtualIpStore
set_value fault v s = write_value fault v s

stored : (v : Bytes) → v ≢ [] → non_empty v ≡ some v
stored [] h = absurd (h refl)
stored (c ∷ v) h = refl

-- A visible, non-empty ASCII address that was set is in the store and is read back when the file is
-- opened again; if setting it fails, the error is returned and the store and its file stay as they were.
pub open_value-set_value :
    (v body : Bytes) (s : LocalVirtualIpStore)
    → All IsVisible v
    → v ≢ []
    → (set_value none v s).1.file ≡ some body
    → (open_value (ok body) ≡ ok (some v))
      × ((set_value none v s).1.value ≡ some v)
      × ((e : IoError) → set_value (some e) v s ≡ (err e, s))
unfolding set_value open_value
open_value-set_value v body s visible some_text written =
    let same : v ≡ body = ground arith in
    (rw (← same, trim_visible v visible, stored v some_text), refl, λ e. refl)
