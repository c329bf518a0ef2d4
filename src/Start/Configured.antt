-- ===== src/Start/Configured.antt =====
-- The daemon's plugins from its configuration file: `parse_config` and then `instantiate_plugins`.
use ditto.Prelude.{Bool, none, some, List, [], ◌∷◌, ◌++◌, if◌then◌else◌}
use ditto.Prelude.Bytes.{Bytes}
use ditto.Config.{Line, Section, header}
use ditto.Config.Headers.{is}
use ditto.Start.Built.{Entry}

module _ (join : List Bytes → Bytes) where
  -- The three strings of a line.
  pub line_entry : Line → Entry
  line_entry (w, []) = record { name = w; plg_list = []; conf = [] }
  line_entry (w, plg_list ∷ av) = record { name = w; plg_list = plg_list; conf = join av }

  module _ (k : Section) where
    -- The lines of a section: those with its header as the last header before them.
    unfoldable pub section_lines : Bool → List Line → List Entry
    unfolding line_entry
    section_lines in_section [] = []
    section_lines in_section (l ∷ ls) = elim (header (l.0)) [
      | none ↦ (if in_section then line_entry l ∷ [] else []) ++ section_lines in_section ls
      | some j ↦ section_lines (is j k) ls
    ]
