-- ===== src/BuildContexts/Redirects.antt =====
-- What scripts/base-image-build-contexts.py redirects: references under ECR Public's library, to the
-- same image on Docker Hub.
use ci_workflows.Base.{All}
use ci_workflows.BuildContexts.Run.{State}
use ci_workflows.BuildContexts.Twins.{IsRedirect}

abbrev AllRedirects : State → Type 0
AllRedirects s = All IsRedirect s.contexts
