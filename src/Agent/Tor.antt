-- ===== src/Agent/Tor.antt =====
-- The configuration of the Tor process in src/tor_runtime.rs, and waiting for it. A path is its text; the
-- calls that start and stop the process are left out.
pub mod Torrc
mod Tests
use localscale.Prelude.{
  ℕ, Bool, false, not, ◌&&◌, ◌||◌, Option, none, some, List, [], ◌∷◌, ◌++◌, Bytes, codes, length,
  all, leb, ltb, ◌==◌, if◌then◌else◌, strip_prefix, strip_suffix, Result, ok, err, ◌>>=◌, ◌>>◌,
}
use localscale.Prelude.Options.{is_some}
use localscale.Codec.Decimal.{decimal, parse_u16}
use localscale.Codec.Fields.{split_once, rsplit_once, cut_at}
use localscale.Codec.Trim.{trim}
use localscale.Protocol.Syntax.{is_empty}
use localscale.Transport.Action.{IoError}

pub data TorRuntimeError : Type 0 where
  io : IoError → TorRuntimeError
  missing_bundled_executable : List Bytes → TorRuntimeError
  unsafe_bundled_executable invalid_hostname insecure_data_directory invalid_config :
      Bytes → TorRuntimeError
  exited : ℕ → TorRuntimeError
  readiness_timeout : TorRuntimeError
  readiness_failed : Bytes → TorRuntimeError

pub data TorMode : Type 0 where
  host : ℕ → Bytes → TorMode
  client : Bytes → TorMode

-- The letters of base32.
abbrev is_base32 : ℕ → Bool
is_base32 c = (leb b'a' c && leb c b'z') || (leb b'2' c && leb c b'7')

abbrev is_label : Option Bytes → Bool
is_label none = false
is_label (some label) = length label == 56 && all is_base32 label

unfoldable pub validate_v3_hostname : Bytes → Result TorRuntimeError (Unit {0})
validate_v3_hostname hostname =
    if is_label (strip_suffix (codes ".onion") hostname)
    then ok tt
    else err (invalid_hostname hostname)

-- `is_ascii_control` or `is_ascii_whitespace`.
abbrev pub is_blank_byte : ℕ → Bool
is_blank_byte c = ltb c 0x21 || c == 0x7f

abbrev is_upstream : Option (Bytes × Bytes) → Bytes → Result TorRuntimeError (Unit {0})
is_upstream none upstream = err (invalid_config (codes "upstream must be host:port"))
is_upstream (some (name, port)) upstream =
    if is_empty name
      || not (is_some (parse_u16 port))
      || not (all (λ c. not (c == b'/')) name)
      || not (all (λ c. not (is_blank_byte c)) upstream)
    then err (invalid_config (codes "invalid upstream"))
    else ok tt

unfoldable pub validate_upstream : Bytes → Result TorRuntimeError (Unit {0})
validate_upstream upstream = is_upstream (rsplit_once b':' upstream) upstream

-- `TorMode::host`
pub host_mode : ℕ → Bytes → Result TorRuntimeError TorMode
host_mode port upstream = do validate_upstream upstream; ok (host port upstream)

-- `TorMode::client`
unfoldable pub client_mode : Bytes → Result TorRuntimeError TorMode
client_mode hostname = do validate_v3_hostname hostname; ok (client hostname)

pub validate_hostname_for_mode : TorMode → Bytes → Result TorRuntimeError (Unit {0})
validate_hostname_for_mode mode hostname = validate_v3_hostname hostname

-- `is_relative`
abbrev pub is_relative : Bytes → Bool
is_relative path = not (is_some (strip_prefix (codes "/") path))

-- `join`
abbrev pub join_path : Bytes → Bytes → Bytes
join_path dir name =
    if is_some (strip_suffix (codes "/") dir) then dir ++ name else dir ++ b'/' ∷ name

abbrev pub has_line_break : Bytes → Bool
has_line_break s = not (all (λ c. not (c == b'\r' || c == b'\n')) s)

abbrev pub start_of_config : Bytes → ℕ → Bytes
start_of_config dir port =
    codes "DataDirectory "
    ++ (dir ++ (codes "\nLog notice stderr\nSocksPort 127.0.0.1:" ++ (decimal port ++ codes "\n")))

unfoldable pub mode_config : Bytes → TorMode → Result TorRuntimeError Bytes
mode_config dir (host port upstream) = do
  validate_upstream upstream
  ok (
      codes "ClientOnly 0\nHiddenServiceDir "
      ++ (join_path dir (codes "hidden_service")
          ++ (codes "\nHiddenServiceVersion 3\nHiddenServicePort "
              ++ (decimal port ++ (codes " " ++ (upstream ++ codes "\n"))))))
mode_config dir (client hostname) = do validate_v3_hostname hostname; ok (codes "ClientOnly 1\n")

unfoldable pub render_torrc_with_socks_port : Bytes → TorMode → ℕ → Result TorRuntimeError Bytes
render_torrc_with_socks_port dir mode port =
    if port == 0
    then err (invalid_config (codes "SOCKS port must be non-zero"))
    else if is_relative dir
    then err (invalid_config (codes "data directory must be absolute"))
    else if has_line_break dir
    then err (invalid_config (codes "data directory contains a line break"))
    else (do config ← mode_config dir mode; ok (start_of_config dir port ++ config))

pub render_torrc : Bytes → TorMode → Result TorRuntimeError Bytes
render_torrc dir mode = render_torrc_with_socks_port dir mode 9150

-- The first line of a text, and whether there is another.
abbrev first_line : Option (Bytes × Bytes) → Bytes → Bytes × Bool
first_line none contents = (contents, false)
first_line (some (line, rest)) contents = (line, not (is_empty rest))

abbrev only_hostname : Bytes × Bool → Result TorRuntimeError Bytes
only_hostname (line, more) =
    if is_empty (trim line) || more
    then err (invalid_hostname (trim line))
    else (do validate_v3_hostname (trim line); ok (trim line))

-- From what reading the file returns.
pub generated_host_hostname : Result IoError Bytes → Result TorRuntimeError Bytes
generated_host_hostname (err e) = err (io e)
generated_host_hostname (ok contents) =
    only_hostname (first_line (split_once b'\n' contents) contents)

-- What a turn of the loop finds: the end of the process, a failure to ask for it, a line of the log, none in
-- 100 milliseconds, or the end of the log. No turn is left when the time is up.
pub data Turn : Type 0 where
  ended : ℕ → Turn
  unknown : IoError → Turn
  line : Bytes → Turn
  quiet disconnected : Turn

pub wait_for_readiness : List Turn → Result TorRuntimeError (Unit {0})
wait_for_readiness [] = err readiness_timeout
wait_for_readiness (ended status ∷ turns) = err (exited status)
wait_for_readiness (unknown e ∷ turns) = err (io e)
wait_for_readiness (line text ∷ turns) =
    let rest = wait_for_readiness turns in
    if is_some (cut_at (codes "Bootstrapped 100%") text) then ok tt else rest
wait_for_readiness (quiet ∷ turns) = wait_for_readiness turns
wait_for_readiness (disconnected ∷ turns) = err readiness_timeout
