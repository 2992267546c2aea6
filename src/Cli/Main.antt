-- ===== src/Cli/Main.antt =====
-- cli/crypto-stream/main.go: the choice of a program from the arguments.
use termino.Prelude.{List, [], ◌∷◌, if◌then◌else◌, ◌==◌, map}
use termino.Prelude.Text.{Text, text_eq, codes}
use termino.Prelude.Strings.{Unicode, to_upper, join}

-- What `main` runs. `fails` prints and exits with status 1.
pub data Program : Type 0 where
  price_stream : List Text → Program
  watch_mode history : Text → Program
  alert_stream version fails : Program

abbrev pub server_url : Text → Text
server_url env = if env == [] then codes "http://localhost:8080" else env

unfoldable pub default_symbols : List Text
default_symbols =
    codes "BTC"
    ∷ codes "ETH"
    ∷ codes "SOL"
    ∷ codes "ADA"
    ∷ codes "DOT"
    ∷ codes "AVAX"
    ∷ codes "MATIC"
    ∷ codes "LINK"
    ∷ []

abbrev or_default : List Text → List Text
or_default [] = default_symbols
or_default (s ∷ ss) = s ∷ ss

unfoldable pub chosen_symbols : Unicode → List Text → List Text
chosen_symbols u args = map (to_upper u) (or_default args)

first_symbol : Unicode → (Text → Program) → List Text → Program
first_symbol u program [] = fails
first_symbol u program (s ∷ ss) = program (to_upper u s)

-- The arguments after the name of the program.
unfoldable pub run_main : Unicode → List Text → Program
unfolding first_symbol
run_main u [] = fails
run_main u (cmd ∷ args) =
    if cmd == codes "prices"
    then price_stream (chosen_symbols u args)
    else if cmd == codes "watch"
    then first_symbol u watch_mode args
    else if cmd == codes "alerts"
    then alert_stream
    else if cmd == codes "history"
    then first_symbol u history args
    else if cmd == codes "version"
    then version
    else fails

-- The parameter `symbols` that `connectSSE` of prices.go asks for.
unfoldable pub symbols_query : List Text → Text
symbols_query symbols = join b',' symbols
