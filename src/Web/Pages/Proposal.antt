-- ===== src/Web/Pages/Proposal.antt =====
-- apps/web/src/features/proposals/ProposalPage.tsx: the public link and the download.
use remodelator.Base.{String, Bool, true, false, List, [], ◌∷◌, ◌++◌}
use remodelator.Web.Api.Calls.{Proposals, create_proposal_share_link}
use remodelator.Web.Api.Send.{Encoding, Download, joined, download_proposal_pdf}
use remodelator.Web.App.{App, Runtime}
use remodelator.Web.Builtins.{Builtins}
use remodelator.Web.Client.{member}
use remodelator.Web.Query.{
  Effect, Outcome, succeeded, failed, failed_otherwise, toast_success, toast_error,
}

-- the texts put on the clipboard, the files saved, and the rest of what the page does
pub record ProposalPage : Type 0 where
  pub clipboard : List String
  pub files : List String
  pub calls : List Proposals
  pub effects : List Effect

abbrev pub toast : Effect → ProposalPage → ProposalPage
toast e s = record s { effects = s.effects ++ e ∷ [] }

-- "Copy Public Link"
unfoldable pub press_share : String → ProposalPage → ProposalPage
press_share id s = record s { calls = s.calls ++ create_proposal_share_link id ∷ [] }

-- whether the browser lets the page write to the clipboard
abbrev copied : Bool → String → ProposalPage → ProposalPage
copied true url s =
    toast (toast_success "Public proposal link copied")
      (record s { clipboard = s.clipboard ++ url ∷ [] })
copied false url s = toast (toast_success (joined ("Public proposal link: " ∷ url ∷ []))) s

-- `onSuccess` and `onError`
unfoldable pub shared :
    {N : Type 0} → Builtins N → String → Bool → Outcome → ProposalPage → ProposalPage
shared num origin writable (succeeded reply) s =
    copied writable (joined (origin ∷ num.in_text (member reply "path") ∷ [])) s
shared num origin writable (failed message) s = toast (toast_error message) s
shared num origin writable failed_otherwise s = toast (toast_error "Failed to create public link") s

abbrev downloaded : Download → ProposalPage → ProposalPage
downloaded (Download.saved name body) s = record s { files = s.files ++ name ∷ [] }
downloaded (Download.failed message) s = toast (toast_error message) s
downloaded Download.unanswered s = s

-- "Download PDF"
unfoldable pub handle_export_pdf :
    Runtime → Encoding → String → ProposalPage → App → ProposalPage × App
unfolding download_proposal_pdf
handle_export_pdf js web id s app =
    let (result, app') = download_proposal_pdf js web id app in (downloaded result s, app')
