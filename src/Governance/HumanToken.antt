-- ===== src/Governance/HumanToken.antt =====
-- The token of `HumanGate.approve_escalation` before `PolicyEngine.verify_token`.
use Prim.Native.Char.{code}
use Prim.Native.String.append
use text.Mathlib.TextEquality.{starts_with_iff}
use kalyx_mao_engine.Base.{
  ℕ, String, true, ◌≡◌, ◌≢◌, refl, ◌∙◌, sym, ap, Option, [], ◌∷◌, arith, str_append, split_dots,
  split_dots-first, starts_with,
}
use kalyx_mao_engine.Entities.{ActionProposal, PolicyDecision, Organisation}
use kalyx_mao_engine.Policy.Engine.{Library, PolicyEngine, valid, verify_token}
use kalyx_mao_engine.Policy.Tokens.{verify_token_sound}
use kalyx_mao_engine.Governance.HumanGate.{human_token}

abbrev first_code : String → ℕ
first_code String.[] = 0
first_code (String.◌∷◌ c s) = code c

not_auth : (w : String) → starts_with (String.◌∷◌ "H" w) "AUTH-" ≢ true
not_auth w h =
    let (u, e) = (starts_with_iff (String.◌∷◌ "H" w) "AUTH-").0 h in
    let same : String.◌∷◌ "A" (str_append "UTH-" u) ≡ String.◌∷◌ "H" w =
      sym (append.cons "A" "UTH-" u) ∙ e in
    absurd (let e : 65 ≡ 72 = ap first_code same in omega arith)

human_token_first :
    (sha256 : String → String) (proposal_id operator : String)
    → (t : String) × (human_token sha256 proposal_id operator ≡ String.◌∷◌ "H" t)
unfolding human_token
human_token_first sha256 proposal_id operator = (_, append.cons "H" "UMAN-AUTH-" _)

-- The policy engine accepts no token that the gate makes, whatever the secret, the time and the
-- proposal: a token that is accepted begins with AUTH-.
pub human_token_refused :
    (lib : Library) (engine : PolicyEngine) (now : ℕ) (sha256 : String → String)
    (proposal_id operator : String) (p : ActionProposal) (org : Organisation)
    (decision : Option PolicyDecision)
    → verify_token lib engine now (human_token sha256 proposal_id operator) p org decision ≢ valid
human_token_refused lib engine now sha256 proposal_id operator p org decision h =
    let a = (verify_token_sound lib engine now _ p org decision h).1 in
    let (t, begins) = human_token_first sha256 proposal_id operator in
    let (w, ws, shape) = split_dots-first "H" t refl in
    let parts : String.◌∷◌ "H" w ∷ ws ≡ a.head ∷ a.claims ∷ a.signature ∷ [] =
      sym shape ∙ sym (ap split_dots begins) ∙ a.shape in
    let head : String.◌∷◌ "H" w ≡ a.head = cc parts in
    not_auth w (ap (λ s. starts_with s "AUTH-") head ∙ a.prefix)
