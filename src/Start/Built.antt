-- ===== src/Start/Built.antt =====
-- The chains of plugins that a configuration gives.
use mathlib.Core.List.{reverse, reverse-append}
use ditto.Prelude.{
  ℕ, ◌-◌, ◌<◌, ◌≡◌, refl, sym, ap, ◌∙◌, Bool, true, false, ◌⊎◌, Option, none, some, List, [], ◌∷◌,
  ◌++◌, length, arith, if◌then◌else◌, length-append,
}
use ditto.Prelude.Bytes.{Bytes, bytes_eq, find, put, find-put}
use ditto.Start.{
  Run, fault, exited, ok, ◌>>=◌, Plugin, Chain, start, is_null, make, has_comma, each_line,
}

-- A line of the section, and the three strings that it leaves in the vector.
pub record Entry : Type 0 where
  pub name : Bytes
  pub plg_list : Bytes
  pub conf : Bytes

abbrev pub vector : List Entry → List Bytes
vector [] = []
vector (e ∷ es) = e.name ∷ e.plg_list ∷ e.conf ∷ vector es

-- The pointer of a plugin: that of the next line in the file with its name.
abbrev pub pointer_of : Bytes → List Entry → Option ℕ
pointer_of k [] = none
pointer_of k (e ∷ es) = if bytes_eq e.name k then some (length es) else pointer_of k es

abbrev plugin_of : Entry → List Entry → Plugin
plugin_of e es = record {
  name = e.name;
  chained = if is_null e.plg_list then none else pointer_of e.plg_list es;
  more = [];
  conf = e.conf;
}

-- The plugins in the order in which they are made: that of the last line first.
abbrev pub build : List Entry → List Plugin
build [] = []
build (e ∷ es) = build es ++ (plugin_of e es ∷ [])

-- The plugin of a line is known, configures, and is chained to none or to one of a later line.
abbrev pub Usable : (Bytes → Bool) → (Bytes → Bytes → Bool) → Entry → List Entry → Type 0
Usable known configures e es =
    (known e.name ≡ true)
    × (configures e.name e.conf ≡ true)
    × ((is_null e.plg_list ≡ true)
        ⊎ ((is_null e.plg_list ≡ false) × ((p : ℕ) × (pointer_of e.plg_list es ≡ some p))))

abbrev pub Valid : (Bytes → Bool) → (Bytes → Bytes → Bool) → List Entry → Type 0
Valid known configures [] = Unit
Valid known configures (e ∷ es) = Usable known configures e es × Valid known configures es

-- A transfer plugin is chained to one at most.
abbrev pub OneEach : List Entry → Type 0
OneEach [] = Unit
OneEach (e ∷ es) = (has_comma e.plg_list ≡ false) × OneEach es

pub triples : List Entry → List Bytes
triples [] = []
triples (e ∷ es) = e.conf ∷ e.plg_list ∷ e.name ∷ triples es

triples-append : (es fs : List Entry) → triples (es ++ fs) ≡ triples es ++ triples fs
unfolding triples
triples-append [] fs = refl
triples-append (e ∷ es) fs =
    ap (λ (x : List Bytes). e.conf ∷ e.plg_list ∷ e.name ∷ x) (triples-append es fs)

pub reverse-vector : (es : List Entry) → reverse (vector es) ≡ triples (reverse es)
unfolding triples
reverse-vector [] = refl
reverse-vector (e ∷ es) =
    reverse-append (e.name ∷ e.plg_list ∷ e.conf ∷ []) (vector es)
    ∙ ap (λ (x : List Bytes). x ++ (e.conf ∷ e.plg_list ∷ e.name ∷ [])) (reverse-vector es)
    ∙ sym (triples-append (reverse es) (e ∷ []))
    ∙ ap triples (sym (reverse-append (e ∷ []) es))

-- What the loop has made from the lines `es`.
pub record Built (es : List Entry) (s : Chain) : Type 0 where
  pub made : s.made ≡ build es
  pub found : (k : Bytes) → find k s.plugin_ptr ≡ pointer_of k es
  pub last : 0 < length es → s.last ≡ some (length es - 1)
  pub single : s.xpvec ≡ []

length-build : (es : List Entry) → length (build es) ≡ length es
length-build [] = refl
length-build (e ∷ es) =
    omega (arith, length-build es, length-append (build es) (plugin_of e es ∷ []))

run_assoc {ℓ} :
    {A B C : Type ℓ} (m : Run A) (f : A → Run B) (g : B → Run C)
    → (m >>= λ a. f a >>= g) ≡ (m >>= f >>= g)
run_assoc fault f g = refl
run_assoc (exited e) f g = refl
run_assoc (ok a) f g = refl

run_same {ℓ} :
    {A B : Type ℓ} (m : Run A) (f g : A → Run B) → ((a : A) → f a ≡ g a) → (m >>= f) ≡ (m >>= g)
run_same fault f g h = refl
run_same (exited e) f g h = refl
run_same (ok a) f g h = h a

pub run-ok {ℓ} :
    {A B : Type ℓ} (m : Run A) (f : A → Run B) (a : A) {r : Run B}
    → m ≡ ok a
    → f a ≡ r
    → (m >>= f) ≡ r
run-ok m f a e h = rw e h

module _ (add : Chain → Bytes → Bytes → Bytes → Run Chain) where
  each_line-append :
      (es : List Entry) (ys : List Bytes) (s : Chain)
      → each_line add (triples es ++ ys) s
        ≡ (each_line add (triples es) s >>= λ s'. each_line add ys s')
  unfolding each_line triples
  each_line-append [] ys s = refl
  each_line-append (e ∷ es) ys s =
      run_same (add s e.name e.plg_list e.conf) _ _ (λ s'. each_line-append es ys s')
      ∙ run_assoc (add s e.name e.plg_list e.conf) _ _

  module _ (V : Entry → List Entry → Type 0)
      (adds : (e : Entry) (es : List Entry) (s : Chain)
        → V e es
        → Built es s
        → (s' : Chain) × (add s e.name e.plg_list e.conf ≡ ok s') × Built (e ∷ es) s') where
    abbrev pub AllValid : List Entry → Type 0
    AllValid [] = Unit
    AllValid (e ∷ es) = V e es × AllValid es

    pub each_line-Built :
        (es : List Entry)
        → AllValid es
        → (s : Chain) × (each_line add (triples (reverse es)) start ≡ ok s) × Built es s
    unfolding each_line triples find
    each_line-Built [] h = (
      start,
      refl,
      record { made = refl; found = λ k. refl; last = λ l. absurd (omega arith); single = refl },
    )
    each_line-Built (e ∷ es) h =
        let (s, runs, b) = each_line-Built es (h.1) in
        let (s', done, b') = adds e es s (h.0) b in
        (
          s',
          ap (λ (x : List Entry). each_line add (triples x) start) (reverse-append (e ∷ []) es)
              ∙ ap (λ (x : List Bytes). each_line add x start)
                  (triples-append (reverse es) (e ∷ []))
              ∙ each_line-append (reverse es) (triples (e ∷ [])) start
              ∙ run-ok (each_line add (triples (reverse es)) start) _ s runs
                  (run-ok (add s e.name e.plg_list e.conf) _ s' done refl),
          b',
        )

pub make-Built :
    (configures : Bytes → Bytes → Bool) (e : Entry) (es : List Entry) (s : Chain) (c : Option ℕ)
    → Built es s
    → configures e.name e.conf ≡ true
    → c ≡ (if is_null e.plg_list then none else pointer_of e.plg_list es)
    → (s' : Chain) × (make configures s
          (record { name = e.name; chained = c; more = []; conf = e.conf })
        ≡ ok s')
      × Built (e ∷ es) s'
unfolding make
make-Built configures e es s c b good same =
    let n : length s.made ≡ length es = ap length b.made ∙ length-build es in
    (
      record s {
        plugin_ptr = put e.name (length s.made) s.plugin_ptr;
        made = s.made ++ (record { name = e.name; chained = c; more = []; conf = e.conf } ∷ []);
        last = some (length s.made);
      },
      rw good refl,
      record {
        made =
            ap
              (λ (x : List Plugin).
                x ++ (record { name = e.name; chained = c; more = []; conf = e.conf } ∷ []))
              b.made
            ∙ ap
                (λ (o : Option ℕ).
                  build es
                  ++ (record { name = e.name; chained = o; more = []; conf = e.conf } ∷ []))
                same;
        found = λ k.
            find-put e.name k (length s.made) s.plugin_ptr
            ∙ ap (λ (m : ℕ). if bytes_eq e.name k then some m else find k s.plugin_ptr) n
            ∙ ap (λ (o : Option ℕ). if bytes_eq e.name k then some (length es) else o) (b.found k);
        last = λ l. ap some (n ∙ omega arith);
        single = b.single;
      },
    )
