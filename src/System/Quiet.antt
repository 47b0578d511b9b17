-- ===== src/System/Quiet.antt =====
-- The steps that leave the codes and the time alone.
use lib_agent_oauth.Prelude.{String, ◌≡◌, refl, Bool-cases, inl, inr, not, Option, none, some, ◌==◌}
use lib_agent_oauth.Map.{Map}
use lib_agent_oauth.Exec.Keeps.{Keeps, Keeps-pure, Keeps-if, Keeps-bind}
use lib_agent_oauth.Env.{Env}
use lib_agent_oauth.Model.{World, is_empty}
use lib_agent_oauth.JsonMap.Keeps.{mutate-Keeps}
use lib_agent_oauth.Http.Laws.{on-Keeps, HandlerKeeps}
use lib_agent_oauth.Frame.{
  IsFrame, generate_pairing_code-Keeps, mutate_existing-Keeps, register-Keeps, event-keeps,
}
use lib_agent_oauth.Clients
use lib_agent_oauth.Pairing.{generate_pairing_code}
use lib_agent_oauth.Principal.Codec.{record_codec}
use lib_agent_oauth.Refresh
use lib_agent_oauth.Refresh.Codec.{refresh_codec}
use lib_agent_oauth.Session
use lib_agent_oauth.Session.{session_codec}
use lib_agent_oauth.Principal.{
  principals_store_key, mutate_existing, add_principal, set_principal_binding, rotate_principal,
  remove_principal, delete_existing,
}
use lib_agent_oauth.Server.{Server}
use lib_agent_oauth.Register.{
  RegisterRequest, all_valid, register_client, register_body, handle_register, client_event,
}

module _ ⦃env : Env⦄ {B : Type 0} (part : World env.S → B) (frame : IsFrame part) where
  pub add_principal-Keeps :
      (name : String) (binding : Option (Map String)) → Keeps part (add_principal name binding)
  unfolding add_principal
  add_principal-Keeps name binding =
      Keeps-bind part generate_pairing_code _ (generate_pairing_code-Keeps part frame) (λ code.
        Keeps-bind part _ (λ _. _)
          (mutate-Keeps part frame.no_store record_codec principals_store_key _)
          (λ _. Keeps-pure part code))

  pub set_principal_binding-Keeps :
      (name : String) (binding : Map String) → Keeps part (set_principal_binding name binding)
  unfolding set_principal_binding
  set_principal_binding-Keeps name binding =
      Keeps-bind part (mutate_existing name _) _ (mutate_existing-Keeps part frame name _)
        (λ r. Keeps-pure part _)

  pub rotate_principal-Keeps : (name : String) → Keeps part (rotate_principal name)
  unfolding rotate_principal
  rotate_principal-Keeps name =
      Keeps-bind part generate_pairing_code _ (generate_pairing_code-Keeps part frame) (λ code.
        Keeps-bind part (mutate_existing name _) _ (mutate_existing-Keeps part frame name _)
          (λ r. Keeps-pure part _))

  pub remove_principal-Keeps : (name : String) → Keeps part (remove_principal name)
  unfolding remove_principal Refresh.remove_for_principal Session.remove_for_principal
  remove_principal-Keeps name =
      Keeps-bind part _ _
        (mutate-Keeps part frame.no_store record_codec principals_store_key (delete_existing name))
        (λ removed.
          Keeps-bind part (Refresh.remove_for_principal name) _
            (Keeps-if part (name == "") _ _ (Keeps-pure part tt)
              (mutate-Keeps part frame.no_store refresh_codec Refresh.refresh_store_key _))
            (λ _.
              Keeps-bind part (Session.remove_for_principal name) _
                (Keeps-if part (name == "") _ _ (Keeps-pure part tt)
                  (mutate-Keeps part frame.no_store session_codec Session.sessions_store_key _))
                (λ _. Keeps-pure part removed)))

  register_client-Keeps :
      (s : Server) (req : RegisterRequest) → HandlerKeeps part (register_client s req)
  unfolding register_client
  register_client-Keeps s req =
      on-Keeps part _ _ (Clients.register req.redirect_uris req.client_name)
        (register-Keeps part frame req.redirect_uris req.client_name)
        (λ c. record { at = event-keeps part frame s (client_event c) })
        (λ e. record { at = λ w. refl })

  register_body-keeps :
      (s : Server) (o : Option RegisterRequest) (w : World env.S)
      → part (register_body s o w).1 ≡ part w
  unfolding register_body
  register_body-keeps s none w = refl
  register_body-keeps s (some req) w = elim (Bool-cases (is_empty req.redirect_uris)) [
    | inl e ↦ rw e refl
    | inr e ↦ elim (Bool-cases (not (all_valid req.redirect_uris))) [
      | inl bad ↦ rw (e, bad) refl
      | inr good ↦ rw (e, good) ((register_client-Keeps s req).at w)
    ]
  ]

  pub handle_register-keeps :
      (s : Server) (method : String) (o : Option RegisterRequest) (w : World env.S)
      → part (handle_register s method o w).1 ≡ part w
  unfolding handle_register
  handle_register-keeps s method o w = elim (Bool-cases (not (method == "POST"))) [
    | inl e ↦ rw e refl
    | inr e ↦ rw e (register_body-keeps s o w)
  ]
