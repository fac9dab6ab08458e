-- ===== src/Scraper.antt =====
-- The scraper, src/scraper: the parser of what a pod answers, the choice of the pods, the service
-- that follows the EPAs, the scheduler that makes jobs of them, and the workers that do the jobs.
pub mod Parser
pub mod PodCache
pub mod Pods
pub mod Service
pub mod Scheduler
pub mod Worker
