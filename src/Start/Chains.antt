-- ===== src/Start/Chains.antt =====
-- Every line of a valid configuration makes its plugin, and `instantiate_plugins` both chains.
use mathlib.Core.List.{reverse}
use ditto.Prelude.{
  ℕ, ◌-◌, ◌<◌, ◌≡◌, refl, ap, ◌∙◌, Bool, true, false, inl, inr, Option, none, some, List, [], ◌∷◌,
  length, ltb, if◌then◌else◌, case_some,
}
use ditto.Prelude.Bytes.{Bytes, find}
use ditto.Start.{
  fault, ok, ◌>>=◌, Chain, start, is_null, deref, make, has_comma, chain_to, each_line, add_storage,
  add_transfer, instantiate_plugins,
}
use ditto.Start.Built.{
  Entry, vector, pointer_of, build, Usable, Valid, OneEach, reverse-vector, Built, run-ok, AllValid,
  each_line-Built, make-Built,
}

deref-ok :
    (ptrs : List (Bytes × ℕ)) (k : Bytes) (p : ℕ) → find k ptrs ≡ some p → deref ptrs k ≡ ok p
unfolding deref
deref-ok ptrs k p e = case_some (find k ptrs) fault (λ q. ok q) p e

module _ (known : Bytes → Bool) (configures : Bytes → Bytes → Bool) where
  storage-adds :
      (e : Entry) (es : List Entry) (s : Chain)
      → Usable known configures e es
      → Built es s
      → (s' : Chain) × (add_storage known configures s e.name e.plg_list e.conf ≡ ok s')
        × Built (e ∷ es) s'
  unfolding add_storage
  storage-adds e es s (there, good, inl none_below) b =
      let (s', runs, b') = make-Built configures e es s none b good (rw none_below refl) in
      (s', rw (there, none_below) runs, b')
  storage-adds e es s (there, good, inr (below, (p, at))) b =
      let (s', runs, b') = make-Built configures e es s (some p) b good (rw (below, at) refl) in
      (
        s',
        rw (there, below)
            (run-ok (deref s.plugin_ptr e.plg_list) _ p
              (deref-ok s.plugin_ptr e.plg_list p (b.found e.plg_list ∙ at)) runs),
        b',
      )

  make-transfer :
      (e : Entry) (es : List Entry) (s : Chain) (c : Option ℕ)
      → Built es s
      → configures e.name e.conf ≡ true
      → c ≡ (if is_null e.plg_list then none else pointer_of e.plg_list es)
      → (s' : Chain) × (make configures
            (record s { last = c })
            (if ltb 0 (length s.xpvec)
              then record { name = e.name; chained = none; more = s.xpvec; conf = e.conf }
              else record { name = e.name; chained = c; more = []; conf = e.conf })
          ≡ ok s')
        × Built (e ∷ es) s'
  unfolding make
  make-transfer e es s c b good same =
      let (s', runs, b') = make-Built configures e es s c b good same in
      let single : ltb 0 (length s.xpvec) ≡ false = rw b.single refl in (s', rw single runs, b')

  transfer-adds :
      (e : Entry) (es : List Entry) (s : Chain)
      → (Usable known configures e es × (has_comma e.plg_list ≡ false))
      → Built es s
      → (s' : Chain) × (add_transfer known configures s e.name e.plg_list e.conf ≡ ok s')
        × Built (e ∷ es) s'
  unfolding add_transfer chain_to
  transfer-adds e es s ((there, good, inl none_below), one) b =
      let (s', runs, b') = make-transfer e es s none b good (rw none_below refl) in
      (s', rw (there, none_below) runs, b')
  transfer-adds e es s ((there, good, inr (below, (p, at))), one) b =
      let (s', runs, b') = make-transfer e es s (some p) b good (rw (below, at) refl) in
      (
        s',
        rw (there, below, one)
            (run-ok (deref s.plugin_ptr e.plg_list >>= λ xp. ok (record s { last = some xp })) _
              (record s { last = some p })
              (run-ok (deref s.plugin_ptr e.plg_list) _ p
                (deref-ok s.plugin_ptr e.plg_list p (b.found e.plg_list ∙ at)) refl)
              runs),
        b',
      )

  storage-Valid :
      (es : List Entry)
      → Valid known configures es
      → AllValid (add_storage known configures) (Usable known configures) storage-adds es
  storage-Valid [] h = tt
  storage-Valid (e ∷ es) h = (h.0, storage-Valid es (h.1))

  transfer-Valid :
      (es : List Entry)
      → Valid known configures es
      → OneEach es
      → AllValid
          (add_transfer known configures)
          (λ e fs. Usable known configures e fs × (has_comma e.plg_list ≡ false))
          transfer-adds
          es
  transfer-Valid [] h g = tt
  transfer-Valid (e ∷ es) h g = ((h.0, g.0), transfer-Valid es (h.1) (g.1))

-- The lists of a configuration without errors, where every plugin exists and accepts its
-- configuration, each line names no plugin or one of a later line of its section to be chained to,
-- and no transfer line names several: instantiate_plugins takes nothing from an empty vector and
-- follows no null pointer; it makes the plugins from the last line to the first, each with the one
-- that the next such line in the file stands for, and the first line's plugins are those that the
-- daemon uses.
pub instantiate_plugins-build :
    (s_known x_known : Bytes → Bool) (s_configures x_configures : Bytes → Bytes → Bool)
    (es fs : List Entry)
    → Valid s_known s_configures es
    → Valid x_known x_configures fs
    → OneEach fs
    → (s : Chain) × (x : Chain) × (instantiate_plugins s_known x_known s_configures x_configures
          (vector es, vector fs, false)
        ≡ ok (s, x))
      × ((s.made ≡ build es) × (x.made ≡ build fs))
      × (0 < length es → s.last ≡ some (length es - 1))
      × (0 < length fs → x.last ≡ some (length fs - 1))
unfolding instantiate_plugins
instantiate_plugins-build s_known x_known s_configures x_configures es fs h g one =
    let adds = add_storage s_known s_configures in
    let addx = add_transfer x_known x_configures in
    let (s, s_runs, s_built) =
      each_line-Built adds (Usable s_known s_configures) (storage-adds s_known s_configures) es
        (storage-Valid s_known s_configures es h) in
    let (x, x_runs, x_built) =
      each_line-Built addx
        (λ e es. Usable x_known x_configures e es × (has_comma e.plg_list ≡ false))
        (transfer-adds x_known x_configures) fs (transfer-Valid x_known x_configures fs g one) in
    (
      s,
      x,
      run-ok (each_line adds (reverse (vector es)) start) _ s
          (ap (λ (v : List Bytes). each_line adds v start) (reverse-vector es) ∙ s_runs)
          (run-ok (each_line addx (reverse (vector fs)) start) _ x
            (ap (λ (v : List Bytes). each_line addx v start) (reverse-vector fs) ∙ x_runs) refl),
      (s_built.made, x_built.made),
      s_built.last,
      x_built.last,
    )
