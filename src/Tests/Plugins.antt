-- ===== src/Tests/Plugins.antt =====
-- A storage section of two lines, the first chained to the second, and a transfer section of one.
use ditto.Prelude.{List, [], ◌∷◌}
use ditto.Start.Built.{Entry}
use ditto.Config.{Line, storage_header, transfer_header}
use ditto.Prelude.Bytes.{Bytes}

-- "c" chained to "d", and "d" chained to "null".
abbrev storage_lines : List Entry
storage_lines =
    record { name = 99 ∷ []; plg_list = 100 ∷ []; conf = [] }
    ∷ record { name = 100 ∷ []; plg_list = 110 ∷ 117 ∷ 108 ∷ 108 ∷ []; conf = [] }
    ∷ []

abbrev transfer_lines : List Entry
transfer_lines = record { name = 103 ∷ []; plg_list = []; conf = [] } ∷ []

abbrev first_word : List Bytes → Bytes
first_word [] = []
first_word (w ∷ ws) = w

-- `[storage]`, `c d`, `d null`, `[transfer]`, `g`.
abbrev file : List Line
file =
    (storage_header, [])
    ∷ (99 ∷ [], (100 ∷ []) ∷ [])
    ∷ (100 ∷ [], (110 ∷ 117 ∷ 108 ∷ 108 ∷ []) ∷ [])
    ∷ (transfer_header, [])
    ∷ (103 ∷ [], [])
    ∷ []
