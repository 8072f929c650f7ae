-- ===== src/Agent/HostRegistry/Persistence.antt =====
-- A registry that is opened again has the entries that it had.
use localscale.Prelude.{
  ℕ, ◌≤◌, ◌≡◌, refl, ap, sym, ◌∙◌, Bool, true, false, Bool-cases, Option, none, some, List, [], ◌∷◌,
  arith, Bytes, inl, inr, length, filter, if◌then◌else◌, ==_iff, Result, ok,
}
use localscale.Transport.Action.{IoError}
use localscale.Agent.HostRegistry.{
  HostPeerEntry, HostPeerRegistry, Json, open_registry, persist, write_file, add_pending, bind,
  remove, is_kept,
}

-- A call that changes the registry.
pub data Call : Type 0 where
  add : Bytes → Bytes → Bytes → ℕ → Call
  bind_to : Bytes → Bytes → Call
  remove_id : Bytes → Call

module _ (json : Json) where
  unfoldable pub run :
      Option IoError → Call → HostPeerRegistry → Result IoError (Unit {0}) × HostPeerRegistry
  run fault (add invitation secret virtual_ip created) r =
      add_pending json fault invitation secret virtual_ip created r
  run fault (bind_to invitation node) r = bind json fault invitation node r
  run fault (remove_id id) r = remove json fault id r

  -- The registry behind a row of calls, with the system's errors.
  unfoldable pub run_all : HostPeerRegistry → List (Option IoError × Call) → HostPeerRegistry
  run_all r [] = r
  run_all r ((fault, c) ∷ cs) = run_all (run fault c r).1 cs

  -- The file holds the entries.
  abbrev pub IsSaved : HostPeerRegistry → Type 0
  IsSaved r = r.file ≡ json.to_string r.entries

  abbrev Ends : Result IoError (Unit {0}) × HostPeerRegistry → Type 0
  Ends (res, r) = res ≡ ok tt → IsSaved r

  write_file-Ends :
      (fault : Option IoError) (body : Option Bytes) (r : HostPeerRegistry)
      → body ≡ json.to_string r.entries
      → Ends (write_file json fault body r)
  write_file-Ends none (some body) r h done = h
  write_file-Ends none none r h done = absurd (cc)
  write_file-Ends (some e) body r h done = absurd (cc)

  persist-Ends : (fault : Option IoError) (r : HostPeerRegistry) → Ends (persist json fault r)
  unfolding persist
  persist-Ends fault r = write_file-Ends fault (json.to_string r.entries) r refl

  length-filter :
      (p : HostPeerEntry → Bool) (es : List HostPeerEntry) → length (filter p es) ≤ length es
  length-filter p [] = omega arith
  length-filter p (e ∷ es) = ground (arith, length-filter p es)

  -- A filter that drops nothing leaves the list alone.
  filter_all :
      (p : HostPeerEntry → Bool) (es : List HostPeerEntry)
      → length (filter p es) ≡ length es
      → filter p es ≡ es
  filter_all p [] h = refl
  filter_all p (e ∷ es) h = elim (Bool-cases (p e)) [
    | inl kept ↦ rw kept (ap (λ (r : List HostPeerEntry). e ∷ r) (filter_all p es (ground arith)))
    | inr dropped ↦ absurd (ground (arith, length-filter p es))
  ]

  guarded-Ends :
      (test : Bool) (r same : HostPeerRegistry) (s : Result IoError (Unit {0}) × HostPeerRegistry)
      → (test ≡ true → IsSaved same)
      → Ends s
      → Ends (if test then (ok tt, same) else s)
  guarded-Ends true r same s h e = λ done. h refl
  guarded-Ends false r same s h e = e

  run-Ends :
      (fault : Option IoError) (c : Call) (r : HostPeerRegistry) → IsSaved r → Ends (run fault c r)
  unfolding run add_pending bind remove
  run-Ends fault (add invitation secret virtual_ip created) r saved = persist-Ends fault _
  run-Ends fault (bind_to invitation node) r saved =
      guarded-Ends _ r r _ (λ _. saved) (persist-Ends fault _)
  run-Ends fault (remove_id id) r saved =
      guarded-Ends _ r _ _
        (λ h.
          saved
          ∙ ap json.to_string (
              sym (
                filter_all (is_kept id) r.entries
                  ((==_iff (length (filter (is_kept id) r.entries)) (length r.entries)).0 h))))
        (persist-Ends fault _)

  -- Each call of the row returns `Ok`.
  abbrev pub Succeed : HostPeerRegistry → List (Option IoError × Call) → Type 0
  Succeed r [] = Unit
  Succeed r ((fault, c) ∷ cs) = ((run fault c r).0 ≡ ok tt) × Succeed (run fault c r).1 cs

  run_all-IsSaved :
      (r : HostPeerRegistry) (cs : List (Option IoError × Call))
      → IsSaved r
      → Succeed r cs
      → IsSaved (run_all r cs)
  unfolding run_all
  run_all-IsSaved r [] saved h = saved
  run_all-IsSaved r ((fault, c) ∷ cs) saved h =
      run_all-IsSaved (run fault c r).1 cs (run-Ends fault c r saved h.0) h.1

  -- After any row of additions, bindings and removals that all succeed, on a registry whose file holds
  -- its entries, opening the file again gives exactly the entries in memory. The JSON library reads back
  -- what it writes.
  pub open_registry-run_all :
      ((es : List HostPeerEntry) (b : Bytes)
        → json.to_string es ≡ some b
        → json.from_str b ≡ some es)
      → (r : HostPeerRegistry) (cs : List (Option IoError × Call)) (body : Bytes)
      → r.file ≡ json.to_string r.entries
      → Succeed r cs
      → (run_all r cs).file ≡ some body
      → open_registry json (ok body) ≡ ok (run_all r cs).entries
  unfolding open_registry
  open_registry-run_all law r cs body saved h written =
      rw (law (run_all r cs).entries body (sym (run_all-IsSaved r cs saved h) ∙ written))
