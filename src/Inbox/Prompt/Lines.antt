-- ===== src/Inbox/Prompt/Lines.antt =====
-- The task that a prompt of public/super-agent/task-state.js names.
use picot.Base.{
  ℕ, ◌≡◌, refl, ap, ◌∙◌, false, some, List, [], ◌∷◌, ◌++◌, arith, nat_beq, nat_eq, option_eq, Text,
  codes, text_eq, split, join, Lacks, split-append, get_elem?, any, or_default, or_text,
}
use picot.Inbox.Task.{Task, normalize_super_agent_task}
use picot.Inbox.Prompt.{
  newline, id_line, title_line, project_agent_lines, task_composer_lines,
  build_project_agent_prompt, build_task_composer_prompt,
}

abbrev tail : List Text → List Text
tail [] = []
tail (p ∷ ps) = ps

lacks : (s : Text) → any (λ c. nat_beq c newline) s ≡ false → Lacks newline s
lacks [] h = tt
lacks (c ∷ s) h = ground (arith, h, lacks s)

Lacks-append : (d : ℕ) (s t : Text) → Lacks d s → Lacks d t → Lacks d (s ++ t)
Lacks-append d [] t h k = k
Lacks-append d (c ∷ s) t h k = (h.0, Lacks-append d s t h.1 k)

first_line :
    (p q : Text) (ps : List Text)
    → Lacks newline p
    → get_elem? (split newline (join newline (p ∷ q ∷ ps))) 0 ≡ some p
unfolding join
first_line p q ps h = ap (λ x. get_elem? x 0) (split-append newline p (join newline (q ∷ ps)) h)

second_line :
    (p q r : Text) (ps : List Text)
    → Lacks newline p
    → Lacks newline q
    → get_elem? (split newline (join newline (p ∷ q ∷ r ∷ ps))) 1 ≡ some q
unfolding join
second_line p q r ps h k =
    ap (λ x. get_elem? x 1) (split-append newline p (join newline (q ∷ r ∷ ps)) h)
    ∙ first_line q r ps k

-- For every task whose id (the given one, or the fresh one) has no line break, whatever its other
-- texts hold: the first line of the project agent's prompt and the second line of the composer's
-- prompt are the line of that id.
pub prompt_names_task :
    (fresh : Text) (t : Task)
    → Lacks newline (or_text t.id fresh)
    → (get_elem? (split newline (build_project_agent_prompt fresh t)) 0
        ≡ some (codes "Task ID: " ++ or_text t.id fresh))
      × (get_elem? (split newline (build_task_composer_prompt fresh t)) 1
          ≡ some (codes "Task ID: " ++ or_text t.id fresh))
unfolding build_project_agent_prompt build_task_composer_prompt project_agent_lines
    task_composer_lines normalize_super_agent_task
prompt_names_task fresh t h =
    let n = normalize_super_agent_task fresh t in
    let named =
      Lacks-append newline (codes "Task ID: ") (or_text t.id fresh) (lacks (codes "Task ID: ") refl)
        h in
    (
      first_line (id_line n) (title_line n) (tail (tail (project_agent_lines n))) named,
      second_line (codes "[Task context — keep this task bound]") (id_line n)
          (codes "Status: " ++ or_default n.status []) (tail (tail (tail (task_composer_lines n))))
          (lacks (codes "[Task context — keep this task bound]") refl) named,
    )
