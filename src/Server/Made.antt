-- ===== src/Server/Made.antt =====
-- A handler that `create_and_add_handler` makes is of the class that was asked for.
use aite_cs.Prelude.{
  Bool, [], Option, none, some, Bytes, codes, equal, equal_iff, if◌then◌else◌, Result, ok, err,
  ◌>>=◌, ◌≡◌, refl, sym, ◌∙◌, bind-eq-ok, Bool-cases, inl, inr,
}
use aite_cs.ConfigParser.Config.{NginxConfig}
use aite_cs.Handlers.{
  RequestHandler, echo, static_file, reverse_proxy, not_found, sleep, meme, status, health,
  new_static_file, new_reverse_proxy, new_meme, first_value, set_root_path,
}
use aite_cs.Server.Registry.{new_handler}
use aite_cs.Standard.Map.{bytes_key}
use aite_cs.Utils.Lookup.{config_lookup}
use aite_cs.Utils.FilePath.{BoostPath, unquote}
use aite_cs.Server.Tables.{type_name}

-- Whatever handler a constructor returns has that type, and whatever handler a choice returns.
abbrev Makes : Bytes → Result RequestHandler → Type 0
Makes name m = (h : RequestHandler) → m ≡ ok h → type_name h ≡ name

abbrev Chooses : Bytes → Result (Option RequestHandler) → Type 0
Chooses type m = (h : RequestHandler) → m ≡ ok (some h) → type_name h ≡ type

Makes-ok : (k : RequestHandler) → Makes (type_name k) (ok k)
Makes-ok k h e = let same : k ≡ h = cc in rw⁻¹ same refl

Makes-bind :
    {A : Type 0} (name : Bytes) (m : Result A) (f : A → Result RequestHandler)
    → ((a : A) → Makes name (f a))
    → Makes name (m >>= f)
Makes-bind name (ok a) f h = h a
Makes-bind name (err e) f h = λ k e'. absurd (cc)

branch :
    (type name : Bytes) (m : Result RequestHandler) (others : Result (Option RequestHandler))
    → Makes name m
    → Chooses type others
    → Chooses type (if equal type name then (m >>= λ k. ok (some k)) else others)
branch type name m others made rest h e = elim (Bool-cases (equal type name)) [
  | inl here ↦
      let (k, e1, e2) = bind-eq-ok m (λ k. ok (some k)) (rw here at e) in
      let same : k ≡ h = cc in rw⁻¹ same (made k e1 ∙ sym ((equal_iff type name).0 here))
  | inr other ↦ rest h (rw other at e)
]

module _ (boost : BoostPath) (is_directory : Bytes → Bool) where
  -- A handler is of the class that was asked for.
  pub new_handler-type :
      (type loc : Bytes) (config : NginxConfig)
      → Chooses type (new_handler boost is_directory type loc config)
  unfolding new_handler new_static_file new_reverse_proxy new_meme
  new_handler-type type loc config =
      let value : Bytes → Result Bytes = λ name. first_value (config_lookup config [] name) in
      let file = Makes-bind _ (value (codes "root")) _ (λ v.
        Makes-bind _ (set_root_path boost is_directory v) _
          (λ root. Makes-ok (static_file root loc))) in
      let proxy = Makes-bind _ (value (codes "host")) _ (λ host.
        Makes-bind _ (value (codes "port")) _ (λ port. Makes-ok (reverse_proxy loc host port))) in
      let memes = Makes-bind _ (value (codes "root")) _ (λ v. Makes-ok (meme (unquote v))) in
      let no_class : Chooses type (ok none) = λ h e. absurd (cc) in
      branch type _ (ok echo) _ (Makes-ok echo) (
        branch type _ (new_static_file boost is_directory loc config) _ file (
          branch type _ (new_reverse_proxy loc config) _ proxy (
            branch type _ (ok not_found) _ (Makes-ok not_found) (
              branch type _ (ok sleep) _ (Makes-ok sleep) (
                branch type _ (new_meme config) _ memes (
                  branch type _ (ok status) _ (Makes-ok status)
                    (branch type _ (ok health) _ (Makes-ok health) no_class)))))))
