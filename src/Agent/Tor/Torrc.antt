-- ===== src/Agent/Tor/Torrc.antt =====
-- The lines of the torrc that `render_torrc_with_socks_port` of src/tor_runtime.rs writes.
use localscale.Prelude.{
  ℕ, ◌≡◌, ◌≢◌, refl, ap, sym, ◌∙◌, Bool, true, false, not, Bool-cases, inl, inr, Option, none, some,
  List, [], ◌∷◌, ◌++◌, append_assoc, Bytes, codes, strip_suffix, All, All-append, all, ◌==◌, arith,
  if◌then◌else◌, Result, ok, err, ◌>>=◌, ◌>>◌,
}
use localscale.Codec.Decimal.{decimal, decimal-IsDigit, IsDigit}
use localscale.Prelude.Options.{is_some}
use localscale.Codec.Fields.{Lacks, split, join, split-join, rsplit_once}
use localscale.Agent.Tor.{
  TorMode, TorRuntimeError, validate_upstream, validate_v3_hostname, join_path, has_line_break,
  is_blank_byte, start_of_config, mode_config, is_relative, is_upstream,
  render_torrc_with_socks_port,
}

-- The directives of every configuration.
abbrev start_lines : Bytes → ℕ → List Bytes
start_lines dir port =
    (codes "DataDirectory " ++ dir)
    ∷ codes "Log notice stderr"
    ∷ (codes "SocksPort 127.0.0.1:" ++ decimal port)
    ∷ []

abbrev mode_lines : Bytes → TorMode → List Bytes
mode_lines dir (TorMode.host port upstream) =
    codes "ClientOnly 0"
    ∷ (codes "HiddenServiceDir " ++ join_path dir (codes "hidden_service"))
    ∷ codes "HiddenServiceVersion 3"
    ∷ (codes "HiddenServicePort " ++ (decimal port ++ (codes " " ++ upstream)))
    ∷ []
mode_lines dir (TorMode.client hostname) = codes "ClientOnly 1" ∷ []

-- The lines, with the empty one behind the last line break.
abbrev pub torrc_lines : Bytes → TorMode → ℕ → List Bytes
torrc_lines dir mode port = start_lines dir port ++ (mode_lines dir mode ++ [] ∷ [])

IsDigit-Lacks : (s : Bytes) → All IsDigit s → Lacks b'\n' s
IsDigit-Lacks [] h = tt
IsDigit-Lacks (c ∷ s) h = (omega arith, IsDigit-Lacks s h.1)

decimal-Lacks : (n : ℕ) → Lacks b'\n' (decimal n)
decimal-Lacks n = IsDigit-Lacks (decimal n) (decimal-IsDigit n)

dir-Lacks : (dir : Bytes) → has_line_break dir ≡ false → Lacks b'\n' dir
dir-Lacks [] h = tt
dir-Lacks (c ∷ dir) h = (ground arith, dir-Lacks dir (ground arith))

upstream-Lacks : (s : Bytes) → all (λ c. not (is_blank_byte c)) s ≡ true → Lacks b'\n' s
upstream-Lacks [] h = tt
upstream-Lacks (c ∷ s) h = (ground arith, upstream-Lacks s (ground arith))

is_upstream-Lacks :
    (o : Option (Bytes × Bytes)) (s : Bytes) → is_upstream o s ≡ ok tt → Lacks b'\n' s
is_upstream-Lacks none s h = ground arith
is_upstream-Lacks (some (name, port)) s h = upstream-Lacks s (ground arith)

Lacks-append : (p q : Bytes) → Lacks b'\n' p → Lacks b'\n' q → Lacks b'\n' (p ++ q)
Lacks-append p q = All-append (λ c. c ≢ b'\n') p q

-- The texts of a mode's configuration, once it is accepted.
abbrev IsModeConfig : Bytes → TorMode → Bytes → Type 0
IsModeConfig dir mode c =
    (c ≡ join b'\n' (mode_lines dir mode ++ [] ∷ []))
    × All (Lacks b'\n') (mode_lines dir mode ++ [] ∷ [])

join_path-Lacks :
    (dir : Bytes) → Lacks b'\n' dir → Lacks b'\n' (join_path dir (codes "hidden_service"))
join_path-Lacks dir h = elim (Bool-cases (is_some (strip_suffix (codes "/") dir))) [
  | inl slash ↦ rw slash (Lacks-append dir (codes "hidden_service") h (omega arith))
  | inr other ↦ rw other (Lacks-append dir (codes "/hidden_service") h (omega arith))
]

host-IsModeConfig :
    (dir : Bytes) (port : ℕ) (upstream : Bytes) (x : Result TorRuntimeError (Unit {0})) (c : Bytes)
    → validate_upstream upstream ≡ x
    → Lacks b'\n' dir
    → (x
        >> ok (
            codes "ClientOnly 0\nHiddenServiceDir "
            ++ (join_path dir (codes "hidden_service")
                ++ (codes "\nHiddenServiceVersion 3\nHiddenServicePort "
                    ++ (decimal port ++ (codes " " ++ (upstream ++ codes "\n")))))))
      ≡ ok c
    → IsModeConfig dir (TorMode.host port upstream) c
unfolding validate_upstream
host-IsModeConfig dir port upstream (err e) c valid h made = ground arith
host-IsModeConfig dir port upstream (ok u) c valid h made = (
  sym (ap (or_empty c) made) ∙ simp append_assoc,
  (
    omega arith,
    (
      Lacks-append (codes "HiddenServiceDir ") _ (omega arith) (join_path-Lacks dir h),
      (
        omega arith,
        (
          Lacks-append (codes "HiddenServicePort ") _ (omega arith) (
              Lacks-append (decimal port) _ (decimal-Lacks port) (
                Lacks-append (codes " ") _ (omega arith)
                  (is_upstream-Lacks (rsplit_once b':' upstream) upstream valid))),
          (tt, tt),
        ),
      ),
    ),
  ),
)
  where
    or_empty : Bytes → Result TorRuntimeError Bytes → Bytes
    or_empty d (ok b) = b
    or_empty d (err e) = d

or_none : Bytes → Result TorRuntimeError Bytes → Bytes
or_none d (ok b) = b
or_none d (err e) = d

client-IsModeConfig :
    (dir hostname : Bytes) (x : Result TorRuntimeError (Unit {0})) (c : Bytes)
    → (x >> ok (codes "ClientOnly 1\n")) ≡ ok c
    → IsModeConfig dir (TorMode.client hostname) c
unfolding or_none
client-IsModeConfig dir hostname (err e) c made = ground arith
client-IsModeConfig dir hostname (ok u) c made =
    (sym (ap (or_none c) made), (omega arith, (tt, tt)))

mode_config-IsModeConfig :
    (dir : Bytes) (mode : TorMode) (c : Bytes)
    → Lacks b'\n' dir
    → mode_config dir mode ≡ ok c
    → IsModeConfig dir mode c
unfolding mode_config
mode_config-IsModeConfig dir (TorMode.host port upstream) c h made =
    host-IsModeConfig dir port upstream (validate_upstream upstream) c refl h made
mode_config-IsModeConfig dir (TorMode.client hostname) c h made =
    client-IsModeConfig dir hostname (validate_v3_hostname hostname) c made

-- What a chain of refusals leaves.
accepted :
    (zero_port relative broken : Bool) (e f g : TorRuntimeError) (start config : Bytes)
    (x : Result TorRuntimeError Bytes)
    → (if zero_port
        then err e
        else if relative
        then err f
        else if broken
        then err g
        else (x >>= (λ c. ok (start ++ c))))
      ≡ ok config
    → (broken ≡ false) × ((c : Bytes) × (x ≡ ok c) × (config ≡ start ++ c))
unfolding or_none
accepted true relative broken e f g start config x h = ground arith
accepted false true broken e f g start config x h = ground arith
accepted false false true e f g start config x h = ground arith
accepted false false false e f g start config (err d) h = ground arith
accepted false false false e f g start config (ok c) h =
    (refl, (c, refl, sym (ap (or_none config) h)))

join_lines :
    (dir : Bytes) (mode : TorMode) (port : ℕ)
    → join b'\n' (torrc_lines dir mode port)
      ≡ start_of_config dir port ++ join b'\n' (mode_lines dir mode ++ [] ∷ [])
join_lines dir (TorMode.host service upstream) port = simp append_assoc
join_lines dir (TorMode.client hostname) port = simp append_assoc

-- A torrc that is written has exactly the directives of its mode, one to a line, with an empty line at the
-- end: no path, address or port adds a line.
pub split-render_torrc_with_socks_port :
    (dir : Bytes) (mode : TorMode) (port : ℕ) (config : Bytes)
    → render_torrc_with_socks_port dir mode port ≡ ok config
    → split b'\n' config ≡ torrc_lines dir mode port
unfolding render_torrc_with_socks_port
split-render_torrc_with_socks_port dir mode port config made =
    let parts =
      accepted (port == 0) (is_relative dir) (has_line_break dir) _ _ _ (start_of_config dir port)
        config (mode_config dir mode) made in
    let clean = dir-Lacks dir parts.0 in
    let known = mode_config-IsModeConfig dir mode parts.1.0 clean parts.1.1 in
    let whole : config ≡ join b'\n' (torrc_lines dir mode port) =
      parts.1.2
      ∙ (ap (λ c. start_of_config dir port ++ c) known.0 ∙ sym (join_lines dir mode port)) in
    ap (split b'\n') whole
    ∙ split-join b'\n' (codes "DataDirectory " ++ dir) _ (
      Lacks-append (codes "DataDirectory ") dir (omega arith) clean,
      (
        omega arith,
        (
          Lacks-append (codes "SocksPort 127.0.0.1:") (decimal port) (omega arith)
              (decimal-Lacks port),
          known.1,
        ),
      ),
    )
