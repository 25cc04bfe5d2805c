-- ===== src/Web.antt =====
-- runtime-pi/internal/web/assets.go, and the page and the static files of
-- runtime-pi/internal/api/server.go. html/template and the file server are arguments: what a template
-- is, how templates/index.html parses at a moment, and what is served from a directory.
use Prim.Native.String.{◌++◌}
use phb_open_ferm.Prelude.{
  ℕ, String, ◌≡◌, refl, Bool, true, false, Option, none, some, inl, inr, ◌⊎◌, if◌then◌else◌,
  Sum-cases, arith,
}

-- The embedded files, or those of /var/lib/openbrew/www.
pub data Assets : Type 0 where
  embedded overriding : Assets

-- os.Stat of the directory: an error, or `IsDir`.
abbrev pub Stat : Type 0
Stat = String ⊎ Bool

unfoldable pub select_fs : Stat → Assets
select_fs (inl e) = embedded
select_fs (inr is_dir) = if is_dir then overriding else embedded

unfoldable pub using_override : Stat → Bool
using_override (inl e) = false
using_override (inr is_dir) = if is_dir then true else false

-- An answer: its status and its text.
pub record Page : Type 0 where
  pub status : ℕ
  pub text : String

-- The part of `Server` that the page needs; no `static` is http.NotFoundHandler.
pub record Ui (T : Type 0) : Type 0 where
  pub ui_fs : Assets
  pub reload_templates : Bool
  pub tmpl : T
  pub static : Option Assets

-- What `Execute` writes at a time, errors included, and the template of "PHB UI missing".
pub record Templates (T : Type 0) : Type 0 where
  pub execute : T → String → String
  pub missing : T

module _ {T : Type 0} where
  -- The two stats are those of SelectFS and UsingOverride; `sub_fails` is the error of fs.Sub.
  unfoldable pub new_ui : Templates T → Stat → Stat → (Assets → String ⊎ T) → Bool → Ui T
  unfolding select_fs using_override
  new_ui t first second parse sub_fails =
      let ui_fs = select_fs first in
      record {
        ui_fs = ui_fs;
        reload_templates = using_override second;
        tmpl = elim (parse ui_fs) [ inl e ↦ t.missing | inr tmpl ↦ tmpl ];
        static = if sub_fails then none else some ui_fs;
      }

  abbrev pub shown : Templates T → String → T → Page
  shown t now tmpl = record { status = 200; text = t.execute tmpl now }

  -- A template that is parsed for the request.
  unfoldable pub rendered : Templates T → String → String ⊎ T → Page
  rendered t now (inl e) = record { status = 500; text = "template error: " ++ e }
  rendered t now (inr tmpl) = shown t now tmpl

  unfoldable pub handle_index : Templates T → String → (Assets → String ⊎ T) → Ui T → Page
  unfolding rendered
  handle_index t now parse ui =
      if ui.reload_templates then rendered t now (parse ui.ui_fs) else shown t now ui.tmpl

  -- The handler of /static/*, with the path behind that prefix.
  unfoldable pub serve_static : (Assets → String → Page) → String → Ui T → Page
  serve_static serve_file rest ui = elim ui.static [
    | none ↦ record { status = 404; text = "404 page not found" }
    | some files ↦ serve_file files rest
  ]

module _ {T : Type 0} where
  -- While the directory is as it was at the start, the page and the static files are both its own, the
  -- page as its template parses at the request, or else both are the embedded ones, the page as its
  -- template parsed at the start.
  page_follows_files :
      (t : Templates T) (now : String) (dir : Stat) (before after : Assets → String ⊎ T)
      (serve_file : Assets → String → Page) (rest : String)
      → let ui = new_ui t dir dir before false in
        (handle_index t now after ui ≡ (
          if using_override dir
          then rendered t now (after overriding)
          else shown t now (elim (before embedded) [ inl e ↦ t.missing | inr tmpl ↦ tmpl ])))
        × (serve_static serve_file rest ui
            ≡ serve_file (if using_override dir then overriding else embedded) rest)
  unfolding new_ui handle_index serve_static using_override select_fs
  page_follows_files t now (inl e) before after serve_file rest = (refl, refl)
  page_follows_files t now (inr true) before after serve_file rest = (refl, refl)
  page_follows_files t now (inr false) before after serve_file rest = (refl, refl)

  -- The page fails only for a template of the directory that does not parse, whatever the two stats
  -- said.
  page_fails :
      (t : Templates T) (now : String) (first second : Stat) (before after : Assets → String ⊎ T)
      (sub_fails : Bool)
      → (handle_index t now after (new_ui t first second before sub_fails)).status ≡ 500
      → (using_override second ≡ true) × ((e : String) × (after (select_fs first) ≡ inl e))
  unfolding new_ui handle_index rendered
  page_fails t now first second before after sub_fails failed =
      elim (Sum-cases (after (select_fs first))) [
        | inl (e, fails) ↦ (ground arith, (e, fails))
        | inr (tmpl, parses) ↦ absurd (ground arith)
      ]
