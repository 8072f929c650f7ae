-- ===== src/Agent/Tor/Tests.antt =====
-- The torrc of a host.
use localscale.Prelude.{◌≡◌, refl, Bytes, codes, ok}
use localscale.Codec.Decimal.{parse_u16, decimal}
use localscale.Codec.Fields.{split, rsplit_once}
use localscale.Agent.Tor.{TorMode, render_torrc_with_socks_port, mode_config, validate_upstream}
use localscale.Agent.Tor.Torrc.{torrc_lines, split-render_torrc_with_socks_port}
use localscale.Prelude.{strip_prefix, strip_suffix}

abbrev mode : TorMode
mode = TorMode.host 8765 (codes "127.0.0.1:8766")

abbrev config : Bytes
config =
    codes
      "DataDirectory /var/tor\nLog notice stderr\nSocksPort 127.0.0.1:9150\nClientOnly 0\nHiddenServiceDir /var/tor/hidden_service\nHiddenServiceVersion 3\nHiddenServicePort 8765 127.0.0.1:8766\n"

rendered : render_torrc_with_socks_port (codes "/var/tor") mode 9150 ≡ ok config
unfolding render_torrc_with_socks_port mode_config strip_prefix validate_upstream rsplit_once
    parse_u16 decimal strip_suffix
rendered = refl

split-render_torrc_with_socks_port_example :
    split b'\n' config ≡ torrc_lines (codes "/var/tor") mode 9150
split-render_torrc_with_socks_port_example =
    split-render_torrc_with_socks_port (codes "/var/tor") mode 9150 config rendered
