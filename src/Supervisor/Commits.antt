-- ===== src/Supervisor/Commits.antt =====
-- How src/llm_harness/supervisor.py commits a patch, and how it takes one back.
use ho_h.Prelude.{String, Option, List, [], ◌≡◌, refl, sym, ◌∙◌, ap, subst, string_eq}
use ho_h.Domain.{WorkItem, WorkerPatch, HarnessRunResult}
use ho_h.Git.{stage_paths, commit_staged, revert_patch}
use ho_h.Supervisor.{
  Site, Supervisor, OperationContext, message_of, settle_commit, make_commit, stage_and_commit,
  commit_result, settle_undo, undo,
}
use ho_h.Supervisor.Effects.{Effects, reverting, staging, Sound, Sound->>=, Sound-after, Sound-pure}
use ho_h.Supervisor.GitEffects.{
  commit_effect, revert_patch-Steps, stage_paths-Steps, commit_staged-Steps,
}
use ho_h.Supervisor.Quiet.{
  notify-Quiet, record_entry-Quiet, in_operation-Quiet, record_commit-Quiet,
}

module _ (site : Site) (supervisor : Supervisor) where
  module _ (item : WorkItem) (context : Option OperationContext) (job_id : String) where
    -- what a commit relates: the result is the provisional one with the commit
    abbrev pub Committed :
        List String → HarnessRunResult → Effects → HarnessRunResult → Effects → Type 0
    Committed files provisional e r e' =
        (r ≡ record provisional { commit = r.commit })
        × (e' ≡ commit_effect (message_of site supervisor context item) r.commit (staging files e))

    -- the result carries the commit, and nothing more is done
    abbrev Carries :
        HarnessRunResult → Option String → Effects → HarnessRunResult → Effects → Type 0
    Carries provisional commit e r e' = (r ≡ record provisional { commit = commit }) × (e' ≡ e)

    settle_commit-Sound :
        (files : List String) (provisional : HarnessRunResult) (commit : Option String)
        → Sound
            (Carries provisional commit)
            (settle_commit site supervisor item context job_id files provisional commit)
    settle_commit-Sound files provisional commit =
        Sound-after (Carries provisional commit) _ _
          (record_commit-Quiet site supervisor context commit)
          λ _.
            Sound-after (Carries provisional commit) _ _ (record_entry-Quiet site supervisor _) λ _.
              Sound-pure (Carries provisional commit) (record provisional { commit = commit })
                (λ e. (refl, refl))

    make_commit-Sound :
        (files : List String) (provisional : HarnessRunResult)
        → Sound
            (Committed [] provisional)
            (make_commit site supervisor item context job_id files provisional)
    make_commit-Sound files provisional desk r h = named _ _ r (
        Sound->>= (commit_effect (message_of site supervisor context item)) (Carries provisional)
          (commit_staged site.outside (message_of site supervisor context item))
          (settle_commit site supervisor item context job_id files provisional)
          (commit_staged-Steps site.outside (message_of site supervisor context item))
          (settle_commit-Sound files provisional) desk r h)
      where
        named :
            (e e' : Effects) (r : HarnessRunResult)
            → ((commit : Option String) × Carries provisional commit
                  (commit_effect (message_of site supervisor context item) commit e)
                  r
                  e')
            → Committed [] provisional e r e'
        named e e' r (commit, (same, effect)) =
            let found : commit ≡ r.commit = sym (ap (λ x. x.commit) same) in
            (
              same ∙ ap (λ c. record provisional { commit = c }) found,
              subst (λ c. e' ≡ commit_effect (message_of site supervisor context item) c e) found
                  effect,
            )

    pub commit_result-Sound :
        (files : List String) (provisional : HarnessRunResult)
        → Sound
            (Committed files provisional)
            (commit_result site supervisor item context job_id files provisional)
    unfolding commit_result
    commit_result-Sound files provisional =
        Sound-after (Committed files provisional) _
          (λ _. stage_and_commit site supervisor item context job_id files provisional)
          (in_operation-Quiet site supervisor context _)
          (λ _ desk r h.
            (Sound->>= (λ _. staging files) (λ _. Committed [] provisional)
              (stage_paths site.outside files)
              (λ _. make_commit site supervisor item context job_id files provisional)
              (stage_paths-Steps site.outside files) (λ _. make_commit-Sound files provisional) desk
              r h).1)

    abbrev pub Undone :
        WorkerPatch → HarnessRunResult → Effects → HarnessRunResult → Effects → Type 0
    Undone patch result e r e' = (r ≡ result) × (e' ≡ reverting patch.patch e)

    settle_undo-Sound :
        (detail text : String) (result : HarnessRunResult)
        → Sound
            (λ e r e'. (r ≡ result) × (e' ≡ e))
            (settle_undo site supervisor item context job_id detail text result)
    settle_undo-Sound detail text result =
        let unchanged =
          λ (e : Effects) (r : HarnessRunResult) (e' : Effects). (r ≡ result) × (e' ≡ e) in
        Sound-after unchanged _ _ (in_operation-Quiet site supervisor context _) λ _.
          Sound-after unchanged _ _ (notify-Quiet text)
            λ _. Sound-pure unchanged result (λ e. (refl, refl))

    pub undo-Sound :
        (patch : WorkerPatch) (detail text : String) (result : HarnessRunResult)
        → Sound
            (Undone patch result)
            (undo site supervisor item context job_id patch detail text result)
    unfolding undo
    undo-Sound patch detail text result desk r h =
        (Sound->>= (λ _. reverting patch.patch) (λ _ e r e'. (r ≡ result) × (e' ≡ e))
          (revert_patch site.outside patch.patch)
          (λ _. settle_undo site supervisor item context job_id detail text result)
          (revert_patch-Steps site.outside patch.patch) (λ _. settle_undo-Sound detail text result)
          desk r h).1
