-- ===== src/Config/Load.antt =====
-- `LoadFile` of internal/config/config.go.
use go_serve.Common.{Option, none, some, List, Str, Result, ok, err}
use go_serve.Config.{Config, Url}
use go_serve.Config.Validate.{ConfigError, parse_toml}

pub data LoadError : Type 0 where
  unreadable : LoadError
  rejected : ConfigError → LoadError

abbrev pub or_rejected : Result ConfigError Config → Result LoadError Config
or_rejected (err e) = err (rejected e)
or_rejected (ok c) = ok c

module _ (read_file : Str → Option Str) (url_parse : Str → Option Url)
    (toml_decode_into : Config → Str → Option (Config × List Str)) where
  unfoldable pub load_file : Str → Result LoadError Config
  load_file path = elim (read_file path) [
    | none ↦ err unreadable
    | some contents ↦ or_rejected (parse_toml url_parse toml_decode_into contents)
  ]
