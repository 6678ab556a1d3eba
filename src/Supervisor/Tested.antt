-- ===== src/Supervisor/Tested.antt =====
-- What src/llm_harness/supervisor.py does with a patch that is applied and tested.
use ho_h.Prelude.{
  String, true, false, Option, none, some, List, ◌≡◌, ◌⊎◌, inl, inr, refl, sym, ◌∙◌, ap, subst,
  arith, ◌==◌, string_eq, eq_of_==, ==_refl, String-discrete,
}
use ho_h.Prelude.Exec.{Result, ok, err}
use ho_h.Git.Calls.{Call, Desk, ask}
use ho_h.Domain.{
  WorkItem, WorkerPatch, HarnessRunResult, CommandResult, SemanticVerificationReport, semantic_ok,
}
use ho_h.Supervisor.{
  Site, Supervisor, OperationContext, message_of, commit_result, undo, after_verdict,
  record_verdict, verdict_of, ask_verdict, semantic_gate, after_report,
}
use ho_h.Supervisor.Effects.{
  Effects, reverting, staging, Sound, Sound-after, Sound-knowing, effects, Sound-if, Quiet-ask,
}
use ho_h.Supervisor.GitEffects.{commit_effect}
use ho_h.Supervisor.Quiet.{record_entry-Quiet}
use ho_h.Supervisor.Commits.{commit_result-Sound, undo-Sound}

fail_differs : {A : Type 0} → ◌≡◌ {A = String} "fail" "pass" → A
unfolding String-discrete
fail_differs h =
    let found : ◌==◌ {A = String} "pass" "pass" ≡ false =
      subst (λ s. ◌==◌ {A = String} s "pass" ≡ false) h refl in
    absurd (ground (arith, ==_refl {A = String} "pass", found))

module _ (site : Site) (supervisor : Supervisor) where
  module _ (item : WorkItem) (context : Option OperationContext) (job_id : String) where
    -- there is a trace with the effects `e` at which the semantic verifier gives the answer
    abbrev pub Answers :
        WorkerPatch
        → Effects
        → List CommandResult
        → Result String SemanticVerificationReport
        → Type 0
    Answers patch e results answer =
        (calls : List Call) × (effects calls ≡ e)
        × (site.outside.verify_semantics calls item patch results ≡ answer)

    -- There is no semantic verifier; or there is a trace with the effects `e` at which it answers, on the
    -- patch and the results of the commands, with the verdict of the result, which is "pass".
    abbrev pub Judged : WorkerPatch → Effects → HarnessRunResult → Type 0
    Judged patch e r =
        ((supervisor.has_semantic_verifier ≡ false) × (r.semantic_verification ≡ none))
        ⊎ ((verdict : SemanticVerificationReport) × (r.semantic_verification ≡ some verdict)
            × (verdict.decision ≡ "pass")
            × Answers patch e r.command_results (ok verdict))

    -- The result of a patch that passed the tests, of which `provisional` is known; the effects are
    -- those behind the application.
    abbrev pub Tested :
        WorkerPatch → List String → HarnessRunResult → Effects → HarnessRunResult → Effects → Type 0
    Tested patch files provisional e r e' =
        (r.pre_apply ≡ provisional.pre_apply)
        × (r.command_results ≡ provisional.command_results)
        × (r.post_apply ≡ provisional.post_apply)
        × (((r.commit ≡ none) × (e' ≡ reverting patch.patch e))
            ⊎ ((provisional.post_apply.is_ok ≡ true)
                × Judged patch e r
                × (e'
                    ≡ commit_effect (message_of site supervisor context item) r.commit
                        (staging files e))))

    module _ (patch : WorkerPatch) (files : List String) where
      undo-Tested :
          (provisional judged : HarnessRunResult) (detail text : String)
          → judged.pre_apply ≡ provisional.pre_apply
          → judged.command_results ≡ provisional.command_results
          → judged.post_apply ≡ provisional.post_apply
          → judged.commit ≡ none
          → Sound
              (Tested patch files provisional)
              (undo site supervisor item context job_id patch detail text judged)
      undo-Tested provisional judged detail text pre results post no_commit desk r h =
          let (same, effect) =
            undo-Sound site supervisor item context job_id patch detail text judged desk r h in
          (
            ap (λ x. x.pre_apply) same ∙ pre,
            ap (λ x. x.command_results) same ∙ results,
            ap (λ x. x.post_apply) same ∙ post,
            inl (ap (λ x. x.commit) same ∙ no_commit, effect),
          )

      commit-Tested :
          (provisional judged : HarnessRunResult)
          → judged.pre_apply ≡ provisional.pre_apply
          → judged.command_results ≡ provisional.command_results
          → judged.post_apply ≡ provisional.post_apply
          → provisional.post_apply.is_ok ≡ true
          → Sound
              (λ e r e'. Judged patch e judged → Tested patch files provisional e r e')
              (commit_result site supervisor item context job_id files judged)
      commit-Tested provisional judged pre results post passed desk r h gate =
          let (same, effect) =
            commit_result-Sound site supervisor item context job_id files judged desk r h in
          (
            ap (λ x. x.pre_apply) same ∙ pre,
            ap (λ x. x.command_results) same ∙ results,
            ap (λ x. x.post_apply) same ∙ post,
            inr (
              passed,
              carried (effects desk.calls) gate (ap (λ x. x.semantic_verification) same)
                  (ap (λ x. x.command_results) same),
              effect,
            ),
          )
        where
          carried :
              (e : Effects)
              → Judged patch e judged
              → r.semantic_verification ≡ judged.semantic_verification
              → r.command_results ≡ judged.command_results
              → Judged patch e r
          carried e (inl (off, unasked)) same ran = inl (off, same ∙ unasked)
          carried e (inr (verdict, found, passes, (calls, at, answer))) same ran = inr (
            verdict,
            same ∙ found,
            passes,
            (calls, at, ap (site.outside.verify_semantics calls item patch) ran ∙ answer),
          )

      -- the verdict is an answer of the verifier, or what stands for its error
      abbrev Asked : HarnessRunResult → Effects → SemanticVerificationReport → Type 0
      Asked provisional e verdict =
          (answer : Result String SemanticVerificationReport) × Answers patch e
            provisional.command_results answer
          × (verdict ≡ verdict_of site supervisor item context job_id answer)

      passing :
          (answer : Result String SemanticVerificationReport) (verdict : SemanticVerificationReport)
          → verdict ≡ verdict_of site supervisor item context job_id answer
          → verdict.decision ≡ "pass"
          → answer ≡ ok verdict
      passing (ok v) verdict same good = ap ok (sym same)
      passing (err message) verdict same good =
          fail_differs (sym (ap (λ v. v.decision) same) ∙ good)

      after_verdict-Tested :
          (provisional : HarnessRunResult) (verdict : SemanticVerificationReport)
          → provisional.commit ≡ none
          → provisional.post_apply.is_ok ≡ true
          → Sound
              (λ e r e'. Asked provisional e verdict → Tested patch files provisional e r e')
              (after_verdict site supervisor item context job_id patch files provisional verdict)
      unfolding semantic_ok
      after_verdict-Tested provisional verdict no_commit passed =
          let judged = record provisional { semantic_verification = some verdict } in
          Sound-if (λ e r e'. Asked provisional e verdict → Tested patch files provisional e r e')
            (semantic_ok verdict) _ _
            (λ good desk r h asked.
              let (answer, (calls, at, given), named) = asked in
              let pass = eq_of_== verdict.decision "pass" good in
              commit-Tested provisional judged refl refl refl passed desk r h
                (inr (verdict, refl, pass, (calls, at, given ∙ passing answer verdict named pass))))
            (λ bad desk r h asked.
              undo-Tested provisional judged _ _ refl refl refl no_commit desk r h)

      ask_verdict-Asked :
          (provisional : HarnessRunResult) (desk : Desk) (verdict : SemanticVerificationReport)
          → (ask_verdict site supervisor item context job_id patch provisional desk).0 ≡ ok verdict
          → Asked provisional (effects desk.calls) verdict
      unfolding ask
      ask_verdict-Asked provisional desk verdict h = (
        site.outside.verify_semantics desk.calls item patch provisional.command_results,
        (desk.calls, refl, refl),
        ground (arith, h),
      )

      semantic_gate-Tested :
          (provisional : HarnessRunResult)
          → provisional.commit ≡ none
          → provisional.semantic_verification ≡ none
          → provisional.post_apply.is_ok ≡ true
          → Sound
              (Tested patch files provisional)
              (semantic_gate site supervisor item context job_id patch files provisional)
      unfolding semantic_gate
      semantic_gate-Tested provisional no_commit unasked passed =
          Sound-if (Tested patch files provisional) supervisor.has_semantic_verifier _ _
            (λ on.
              Sound-knowing (Tested patch files provisional) (Asked provisional)
                (ask_verdict site supervisor item context job_id patch provisional)
                (record_verdict site supervisor item context job_id patch files provisional)
                (Quiet-ask _ _ (λ e. refl)) (ask_verdict-Asked provisional)
                (λ verdict.
                  Sound-after
                    (λ e r e'. Asked provisional e verdict → Tested patch files provisional e r e')
                    _
                    (λ _.
                      after_verdict site supervisor item context job_id patch files provisional
                        verdict)
                    (record_entry-Quiet site supervisor _)
                    (λ _. after_verdict-Tested provisional verdict no_commit passed)))
            (λ off desk r h.
              commit-Tested provisional provisional refl refl refl passed desk r h
                (inl (off, unasked)))

      pub after_report-Tested :
          (provisional : HarnessRunResult)
          → provisional.commit ≡ none
          → provisional.semantic_verification ≡ none
          → Sound
              (Tested patch files provisional)
              (after_report site supervisor item context job_id patch files provisional)
      after_report-Tested provisional no_commit unasked =
          Sound-if (Tested patch files provisional) provisional.post_apply.is_ok _ _
            (λ passed. semantic_gate-Tested provisional no_commit unasked passed)
            (λ bad. undo-Tested provisional provisional _ _ refl refl refl no_commit)
