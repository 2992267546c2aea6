-- ===== src/Cli/PricesView.antt =====
-- `View` of cli/crypto-stream/ui/prices.go. The styles of lipgloss are parameters.
use termino.Prelude.{Bool, List, [], ◌∷◌, ◌++◌, Option, none, some, if◌then◌else◌}
use termino.Prelude.Int.{ℤ}
use termino.Prelude.Text.{Text, codes}
use termino.Models.{AggregatedPrice}
use termino.Cli.{Msg, Look, Table}
use termino.Cli.Prices.{PriceModel}

pub record PriceStyles : Type 0 where
  pub title : Text → Text
  pub status : Text → Text

-- `strings.Join` with a comma and a blank.
listed : List Text → Text
listed [] = []
listed (t ∷ []) = t
listed (t ∷ ts) = t ++ codes ", " ++ listed ts

error_line : Look → Option Text → Bool → Text
error_line look none connected = []
error_line look (some e) connected =
    if connected
    then []
    else look.red (codes "  Connection error: " ++ e ++ codes " (retrying...)") ++ 10 ∷ 10 ∷ []

updated : Look → Option ℤ → Text
updated look none = []
updated look (some t) = codes " | Last update: " ++ look.clock t

status_line : Look → List Text → Option ℤ → Bool → Text
unfolding listed updated
status_line look symbols last_update connected =
    codes "Symbols: "
    ++ listed symbols
    ++ updated look last_update
    ++ codes " | "
    ++ (if connected
        then look.green (0x25cf ∷ codes " CONNECTED")
        else look.red (0x25cf ∷ codes " DISCONNECTED"))

unfoldable pub view :
    {F T : Type 0} → Look → Table (Msg (AggregatedPrice F)) T → PriceStyles → PriceModel F T → Text
unfolding error_line status_line
view look tb st m =
    st.title (codes " CRYPTO PRICE STREAM ")
    ++ 10 ∷ 10 ∷ error_line look m.err m.connected
    ++ tb.view m.table
    ++ 10 ∷ st.status (status_line look m.symbols m.last_update m.connected)
    ++ 10 ∷ look.dim (codes "  Press q to quit")
