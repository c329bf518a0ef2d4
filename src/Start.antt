-- ===== src/Start.antt =====
-- gtcd/main.cc: how `instantiate_plugins` builds the chains of the storage and of the transfer
-- plugins from the two lists of the configuration. Which plugins the tables have and what `configure`
-- answers are parameters; a plugin's pointer is the number of those made before it. A vector is given
-- from its end, where `pop_back` takes.
pub mod Built
pub mod Chains
pub mod Configured
use mathlib.Core.List.{reverse}
use ditto.Prelude.{
  ℕ, suc, ◌+◌, Bool, true, false, not, ◌||◌, Option, none, some, List, [], ◌∷◌, ◌++◌, length, ltb,
  ◌==◌, if◌then◌else◌,
}
use ditto.Prelude.Bytes.{Bytes, bytes_eq, find, put}

-- A fault is a read through a null pointer, or `pop_back` of an empty vector.
pub data Exit : Type 0 where
  cannot_parse : Exit
  does_not_exist : Bytes → Exit
  configuration_failed : Bytes → Exit

pub data Run {ℓ} (A : Type ℓ) : Type ℓ where
  fault : Run A
  exited : Exit → Run A
  ok : A → Run A

infixl 5 ◌>>=◌
abbrev pub ◌>>=◌ {ℓ κ} : {A : Type ℓ} {B : Type κ} → Run A → (A → Run B) → Run B
fault >>= f = fault
exited e >>= f = exited e
ok a >>= f = f a

-- A plugin, the one it was made with, and those of `set_more_plugins`.
pub record Plugin : Type 0 where
  pub name : Bytes
  pub chained : Option ℕ
  pub more : List ℕ
  pub conf : Bytes

-- The variables of a loop: `sPluginPtr`, what was made, `sp`, and `xpvec`.
pub record Chain : Type 0 where
  pub plugin_ptr : List (Bytes × ℕ)
  pub made : List Plugin
  pub last : Option ℕ
  pub xpvec : List ℕ

abbrev pub start : Chain
start = record { plugin_ptr = []; made = []; last = none; xpvec = [] }

-- `plg_list == "" || plg_list == "null"`.
unfoldable pub is_null : Bytes → Bool
is_null s = bytes_eq s [] || bytes_eq s (110 ∷ 117 ∷ 108 ∷ 108 ∷ [])

-- `*sPluginPtr[plg]`.
unfoldable pub deref : List (Bytes × ℕ) → Bytes → Run ℕ
deref ptrs plg = elim (find plg ptrs) [ none ↦ fault | some p ↦ ok p ]

-- The plugin is made, put into the table and configured.
unfoldable pub make : (Bytes → Bytes → Bool) → Chain → Plugin → Run Chain
make configures s p =
    if configures p.name p.conf
    then ok (record s {
      plugin_ptr = put p.name (length s.made) s.plugin_ptr;
      made = s.made ++ (p ∷ []);
      last = some (length s.made);
    })
    else exited (Exit.configuration_failed p.name)

-- `strchr (plg_list, ',')`.
unfoldable pub has_comma : Bytes → Bool
has_comma [] = false
has_comma (c ∷ cs) = c == 44 || has_comma cs

-- The words that `strtok (…, ",")` gives, `word` read so far: it skips empty ones.
unfoldable pub strtok : Bytes → Bytes → List Bytes
strtok word [] = if ltb 0 (length word) then word ∷ [] else []
strtok word (c ∷ cs) =
    let rest = strtok [] cs in
    let on = strtok (word ++ (c ∷ [])) cs in
    if c == 44 then (if ltb 0 (length word) then word ∷ rest else rest) else on

-- The loop over the words of a list.
unfoldable pub push_all : List Bytes → Chain → Run Chain
push_all [] s = ok s
push_all (w ∷ ws) s = deref s.plugin_ptr w >>= λ xp.
    push_all ws (record s { last = some xp; xpvec = s.xpvec ++ (xp ∷ []) })

-- The loop of both chains, `while (list.size ())`.
unfoldable pub each_line :
    (Chain → Bytes → Bytes → Bytes → Run Chain) → List Bytes → Chain → Run Chain
each_line add [] s = ok s
each_line add (conf ∷ []) s = fault
each_line add (conf ∷ plg_list ∷ []) s = fault
each_line add (conf ∷ plg_list ∷ plugin ∷ rest) s =
    add s plugin plg_list conf >>= λ s'. each_line add rest s'

module _ (known : Bytes → Bool) (configures : Bytes → Bytes → Bool) where
  unfoldable pub add_storage : Chain → Bytes → Bytes → Bytes → Run Chain
  add_storage s plugin plg_list conf =
      if not (known plugin)
      then exited (Exit.does_not_exist plugin)
      else if is_null plg_list
      then make configures s (record { name = plugin; chained = none; more = []; conf = conf })
      else deref s.plugin_ptr plg_list >>= λ sp.
          make configures s (record { name = plugin; chained = some sp; more = []; conf = conf })

  -- What `xp` and `xpvec` are for the plugin that is made next.
  unfoldable pub chain_to : Chain → Bytes → Run Chain
  chain_to s plg_list =
      if is_null plg_list
      then ok (record s { last = none })
      else if has_comma plg_list
      then push_all (strtok [] plg_list) s
      else deref s.plugin_ptr plg_list >>= λ xp. ok (record s { last = some xp })

  unfoldable pub add_transfer : Chain → Bytes → Bytes → Bytes → Run Chain
  add_transfer s plugin plg_list conf =
      if not (known plugin)
      then exited (Exit.does_not_exist plugin)
      else chain_to s plg_list >>= λ s'. make configures s' (
          if ltb 0 (length s'.xpvec)
          then record { name = plugin; chained = none; more = s'.xpvec; conf = conf }
          else record { name = plugin; chained = s'.last; more = []; conf = conf })

-- `instantiate_plugins`, on what `parse_config` gives: the two chains, whose last plugins are
-- `m->sp` and `m->xp`.
module _ (s_known x_known : Bytes → Bool) (s_configures x_configures : Bytes → Bytes → Bool) where
  unfoldable pub instantiate_plugins : List Bytes × List Bytes × Bool → Run (Chain × Chain)
  instantiate_plugins (sp_list, xp_list, errors) =
      if errors
      then exited Exit.cannot_parse
      else each_line (add_storage s_known s_configures) (reverse sp_list) start >>= λ s.
          each_line (add_transfer x_known x_configures) (reverse xp_list) start >>= λ x. ok (s, x)
