-- ===== src/Config/Dom/Tests.antt =====
-- The theorems at a document with one camera.
use recording_agent_continuo.Prelude.{
  ℕ, ◌==◌, ==_same, Bool, ◌≡◌, refl, ap, ◌∙◌, Option, none, some, [], ◌∷◌, ◌++◌, arith, if_true,
  if_false, if_both, ◌>>=◌, is_some,
}
use recording_agent_continuo.Prelude.Text.{Text, codes, text_eq}
use recording_agent_continuo.Config.Dom.{set_children}
use recording_agent_continuo.Config.Dom.Accept.{UserConfig, du_accept_user_config}
use recording_agent_continuo.Config.Dom.Files.{
  all_saved, both_files, files, wanted, beside, du_accept_user_config-files,
}
use recording_agent_continuo.Config.Dom.Written.{IsMxml, set_children-value}
use recording_agent_continuo.Config.Dom.Urls.{replace_ip}
use recording_agent_continuo.Config.Dom.Hosts.{replace_ip-colon}
use recording_agent_continuo.Config.Samples.{mxml, put_text, doc, front_def}

abbrev user : UserConfig
user = record { recorder_sn = codes "SN1"; uc_locoid = codes "LOCO2"; uc_cameras = front_def ∷ [] }

du_accept_user_config-files_example :
    (do
      r ← du_accept_user_config mxml (λ t. none) text_eq 16 user all_saved (both_files doc doc)
      some (files r))
    ≡ (wanted mxml (λ t. none) text_eq 16 user doc >>= beside mxml (λ t. none) text_eq 16 user doc)
du_accept_user_config-files_example =
    du_accept_user_config-files mxml (λ t. none) text_eq 16 user doc doc

is_some-put_text : (t : Text) (o : Option Text) → is_some (put_text t o) ≡ is_some o
is_some-put_text t none = refl
is_some-put_text t (some old) = refl

mxml-IsMxml : IsMxml mxml
mxml-IsMxml = record {
  value-set_same =
      λ n t old d h. if_true (n == n) (put_text t (d n)) (d n) (==_same n) ∙ ap (put_text t) h;
  value-set_other = λ n k t d ne. if_false (n == k) (put_text t (d k)) (d k) (ground arith);
  is_some-set = λ n k t old d h.
      if_both (λ o. is_some o ≡ is_some (d k)) (n == k) (put_text t (d k)) (d k)
        (is_some-put_text t (d k)) refl;
  find-set = λ n t d node tag. refl;
}

set_children-value_example :
    (r : (ℕ → Option Text) × Bool) × (set_children mxml 9
        ((codes "resolution", codes "2") ∷ ((codes "frame_rate", codes "3") ∷ []))
        doc
      ≡ some r)
    × (r.0 2 ≡ some (codes "2"))
set_children-value_example =
    set_children-value mxml mxml-IsMxml [] (codes "resolution") (codes "2")
      ((codes "frame_rate", codes "3") ∷ []) doc 9 2 refl refl ((λ e. cc e), tt)

replace_ip-colon_example :
    replace_ip (codes "http://" ++ codes "10.0.0.9" ++ b':' ∷ codes "80/snap") (codes "10.0.0.12")
    ≡ codes "http://" ++ codes "10.0.0.12" ++ b':' ∷ codes "80/snap"
replace_ip-colon_example =
    replace_ip-colon (codes "10.0.0.9") (codes "80/snap") (codes "10.0.0.12") (ground arith)
